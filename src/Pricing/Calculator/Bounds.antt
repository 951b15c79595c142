-- ===== src/Pricing/Calculator/Bounds.antt =====
-- uniswap-v2.calculator.ts: the range of the output, and the product of the reserves.
use native.Mathlib.Nat.{div-lt_iff_lt-mul, div-mul-le_self, mul-le-mul_left}
use internship_project_peanu.Prelude.{
  ℕ, suc, ◌+◌, ◌-◌, ◌*◌, ◌/◌, ◌≤◌, ◌<◌, ◌≡◌, refl, sym, subst, arith,
}
use internship_project_peanu.Prelude.Int.{
  ℤ, pos, negsuc, ◌*ℤ◌, ◌≤ℤ◌, ◌<ℤ◌, pos-+ℤ, pos--ℤ, pos-*ℤ, pos-/ℤ,
}
use internship_project_peanu.Prelude.Result.{ok}
use internship_project_peanu.Pricing.Calculator.{get_amount_out, apply_swap, bps}

-- The formula on naturals; `keep` is 10000 - fee.
abbrev pub amount_out : ℕ → ℕ → ℕ → ℕ → ℕ
amount_out a ri ro keep = a * keep * ro / (ri * 10_000 + a * keep)

module _ (a ri ro keep : ℕ) (ri_pos : 0 < ri) (ro_pos : 0 < ro) where
  pub amount_out-lt : amount_out a ri ro keep < ro
  amount_out-lt =
      (div-lt_iff_lt-mul {k = ri * 10_000 + a * keep} {x = a * keep * ro} {y = ro} (grind arith)).1
        (grind arith)

pub le_of_suc : {m n : ℕ} → m < n → m ≤ n
le_of_suc h = omega arith

-- With `ro` split into the output and what stays in the pool.
product_grows :
    (a ri q d keep : ℕ)
    → q * (ri * 10_000 + a * keep) ≤ a * keep * (q + d)
    → keep ≤ 10_000
    → ri * (q + d) ≤ (ri + a) * d
product_grows a ri q d keep h k = omega (arith, mul-le-mul_left (a * d) k)

pub amount_out_product :
    (a ri ro keep : ℕ)
    → 0 < ri
    → 0 < ro
    → keep ≤ 10_000
    → ri * ro ≤ (ri + a) * (ro - amount_out a ri ro keep)
amount_out_product a ri ro keep ri_pos ro_pos k =
    let q : ℕ = amount_out a ri ro keep in
    let below : q < ro = amount_out-lt a ri ro keep ri_pos ro_pos in
    let split : ro ≡ q + (ro - q) = omega arith in
    let fits : q * (ri * 10_000 + a * keep) ≤ a * keep * ro = div-mul-le_self _ _ in
    subst (λ t. ri * t ≤ (ri + a) * (ro - q)) (sym split)
      (product_grows a ri q (ro - q) keep
        (subst (λ t. q * (ri * 10_000 + a * keep) ≤ a * keep * t) split fits) k)

-- A call on amounts that are not negative succeeds exactly when all three are positive.
pub get_amount_out-pos :
    (a ri ro f : ℕ)
    → f ≤ 10_000
    → get_amount_out (pos (suc a)) (pos (suc ri)) (pos (suc ro)) (pos f)
      ≡ ok (pos (amount_out (suc a) (suc ri) (suc ro) (10_000 - f)))
unfolding get_amount_out
get_amount_out-pos a ri ro f h = rw (pos--ℤ _ _ h) (simp (pos-*ℤ, pos-+ℤ, pos-/ℤ) (ground arith))

-- What a successful call says of its arguments, and its value as a formula on naturals.
pub record Swap (amount_in reserve_in reserve_out fee_bps amount : ℤ) : Type 0 where
  pub a : ℕ
  pub ri : ℕ
  pub ro : ℕ
  pub f : ℕ
  pub in_eq : amount_in ≡ pos (suc a)
  pub ri_eq : reserve_in ≡ pos (suc ri)
  pub ro_eq : reserve_out ≡ pos (suc ro)
  pub fee_eq : fee_bps ≡ pos f
  pub out_eq : amount ≡ pos (amount_out (suc a) (suc ri) (suc ro) (10_000 - f))

pub get_amount_out-Swap :
    (amount_in reserve_in reserve_out fee_bps : ℤ) {q : ℤ}
    → pos 0 ≤ℤ fee_bps
    → fee_bps ≤ℤ pos 10_000
    → get_amount_out amount_in reserve_in reserve_out fee_bps ≡ ok q
    → Swap amount_in reserve_in reserve_out fee_bps q
unfolding get_amount_out
get_amount_out-Swap (pos (suc a)) (pos (suc ri)) (pos (suc ro)) (pos f) {q} lo hi e = record {
  a = a;
  ri = ri;
  ro = ro;
  f = f;
  in_eq = refl;
  ri_eq = refl;
  ro_eq = refl;
  fee_eq = refl;
  out_eq = cc (e, get_amount_out-pos a ri ro f (omega arith));
}
get_amount_out-Swap _ _ _ (negsuc f) lo hi e = absurd (omega arith)
get_amount_out-Swap (pos (suc a)) (pos (suc ri)) _ (pos f) lo hi e = absurd (ground arith)
get_amount_out-Swap (pos (suc a)) _ _ (pos f) lo hi e = absurd (ground arith)
get_amount_out-Swap _ _ _ (pos f) lo hi e = absurd (ground arith)

module _ (amount_in reserve_in reserve_out fee_bps : ℤ) {q : ℤ} where
  -- With a fee between 0 and 10000 bps, a successful swap pays out at least zero and less than the
  -- whole reserve, and its input and both reserves were positive.
  pub get_amount_out_bounds :
      pos 0 ≤ℤ fee_bps
      → fee_bps ≤ℤ bps
      → get_amount_out amount_in reserve_in reserve_out fee_bps ≡ ok q
      → (pos 0 ≤ℤ q) × (q <ℤ reserve_out) × (pos 0 <ℤ amount_in) × (pos 0 <ℤ reserve_in)
  get_amount_out_bounds lo hi e =
      let s = get_amount_out-Swap amount_in reserve_in reserve_out fee_bps lo hi e in
      rw (s.out_eq, s.ro_eq, s.in_eq, s.ri_eq)
        (let below =
            amount_out-lt (suc s.a) (suc s.ri) (suc s.ro) (10_000 - s.f) (omega arith)
              (omega arith) in
          (omega arith, omega arith, omega arith, omega arith))

  -- With such a fee a swap never lowers the product of the reserves.
  pub get_amount_out_product :
      pos 0 ≤ℤ fee_bps
      → fee_bps ≤ℤ bps
      → get_amount_out amount_in reserve_in reserve_out fee_bps ≡ ok q
      → let (reserve_in', reserve_out') = apply_swap amount_in q reserve_in reserve_out in
        reserve_in *ℤ reserve_out ≤ℤ reserve_in' *ℤ reserve_out'
  unfolding apply_swap
  get_amount_out_product lo hi e =
      let s = get_amount_out-Swap amount_in reserve_in reserve_out fee_bps lo hi e in
      let below =
        amount_out-lt (suc s.a) (suc s.ri) (suc s.ro) (10_000 - s.f) (omega arith) (omega arith) in
      let grows =
        amount_out_product (suc s.a) (suc s.ri) (suc s.ro) (10_000 - s.f) (omega arith)
          (omega arith) (omega arith) in
      rw (s.out_eq, s.ro_eq, s.in_eq, s.ri_eq)
        (rw (pos-+ℤ (suc s.ri) (suc s.a), pos--ℤ _ _ (le_of_suc below))
          (rw (pos-*ℤ (suc s.ri) (suc s.ro), pos-*ℤ (suc s.ri + suc s.a) _) (omega (arith, grows))))
