-- ===== src/Pricing/Calculator/RoundTrip.antt =====
-- uniswap-v2.calculator.ts: `getAmountIn` asks for enough, and a larger sale never pays less.
use native.Mathlib.Numerals.{add-one}
use native.Mathlib.Nat.{
  le-div_iff_mul-le, div-mul-le_self, lt-div-mul-add, mul-le-mul_right, mul-pos,
  le_of_mul-le-mul_left,
}
use internship_project_peanu.Prelude.{
  ℕ, zero, suc, ◌+◌, ◌-◌, ◌*◌, ◌/◌, ◌≤◌, ◌<◌, ◌≡◌, sym, subst, ap, arith,
}
use internship_project_peanu.Prelude.Int.{
  ℤ, pos, negsuc, ◌+ℤ◌, ◌-ℤ◌, ◌≤ℤ◌, ◌<ℤ◌, pos-+ℤ, pos--ℤ, pos-*ℤ, pos-/ℤ,
}
use internship_project_peanu.Prelude.Result.{ok}
use internship_project_peanu.Pricing.Calculator.{get_amount_out, get_amount_in, bps}
use internship_project_peanu.Pricing.Calculator.Bounds.{
  le_of_suc, amount_out_product, amount_out, amount_out-lt, get_amount_out-pos, get_amount_out-Swap,
}

amount_out_mono_core :
    (u v r ro q : ℕ) → u ≤ v → q ≤ ro → q * (r + u) ≤ u * ro → q * (r + v) ≤ v * ro
amount_out_mono_core u v r ro q uv qro h =
    let w : ℕ = v - u in
    let e : v ≡ u + w = omega arith in rw e (omega (arith, mul-le-mul_right w qro))

pub amount_out_mono :
    (a b ri ro keep : ℕ)
    → 0 < ri
    → 0 < ro
    → a ≤ b
    → amount_out a ri ro keep ≤ amount_out b ri ro keep
amount_out_mono a b ri ro keep ri_pos ro_pos h =
    (le-div_iff_mul-le {k = ri * 10_000 + b * keep} (grind arith)).1 (
      amount_out_mono_core (a * keep) (b * keep) (ri * 10_000) ro (amount_out a ri ro keep)
        (mul-le-mul_right keep h) (le_of_suc (amount_out-lt a ri ro keep ri_pos ro_pos))
        (div-mul-le_self _ _))

-- `getAmountIn` on naturals.
abbrev amount_in : ℕ → ℕ → ℕ → ℕ → ℕ
amount_in x ri ro keep = ri * x * 10_000 / ((ro - x) * keep) + 1

enough_in :
    (x ri d keep n : ℕ)
    → ri * x * 10_000 ≤ n * (d * keep)
    → x * (ri * 10_000 + n * keep) ≤ n * keep * (x + d)
enough_in x ri d keep n h = omega (arith, h)

amount_out-amount_in :
    (x ri ro keep : ℕ)
    → 0 < ri
    → x < ro
    → 0 < keep
    → x ≤ amount_out (amount_in x ri ro keep) ri ro keep
amount_out-amount_in x ri ro keep ri_pos below keep_pos =
    let d : ℕ = ro - x in
    let n : ℕ = amount_in x ri ro keep in
    let split : ro ≡ x + d = omega arith in
    let over : ri * x * 10_000 < ri * x * 10_000 / (d * keep) * (d * keep) + d * keep =
      lt-div-mul-add (let d_pos : 0 < d = omega arith in grind arith) in
    (le-div_iff_mul-le {k = ri * 10_000 + n * keep} {x = x} {y = n * keep * ro} (grind arith)).1 (
      subst (λ t. x * (ri * 10_000 + n * keep) ≤ n * keep * t) (sym split)
        (enough_in x ri d keep n (omega (arith, over))))

get_amount_in-pos :
    (x ri ro f : ℕ)
    → suc x < ro
    → f < 10_000
    → get_amount_in (pos (suc x)) (pos (suc ri)) (pos ro) (pos f)
      ≡ ok (pos (amount_in (suc x) (suc ri) ro (10_000 - f)))
unfolding get_amount_in
get_amount_in-pos x ri ro f below h =
    let d_pos : 0 < (ro - suc x) * (10_000 - f) = mul-pos (omega arith) (omega arith) in
    rw (pos--ℤ 10_000 f (le_of_suc h), pos--ℤ ro (suc x) (le_of_suc below))
      (simp (pos-*ℤ, pos-/ℤ)
        (ground (arith, pos-+ℤ (suc ri * suc x * 10_000 / ((ro - suc x) * (10_000 - f))) 1)))

get_amount_in_below :
    (x ri ro f : ℕ) {n : ℤ}
    → get_amount_in (pos (suc x)) (pos (suc ri)) (pos ro) (pos f) ≡ ok n
    → suc x < ro
unfolding get_amount_in
get_amount_in_below x ri ro f e = ground arith

abbrev Pays : ℤ → ℤ → ℤ → ℤ → ℤ → Type 0
Pays amount_out n reserve_in reserve_out fee_bps =
    (q : ℤ) × (get_amount_out n reserve_in reserve_out fee_bps ≡ ok q) × (amount_out ≤ℤ q)

asks_enough :
    (x ri ro f : ℕ) {n : ℤ}
    → f < 10_000
    → get_amount_in (pos (suc x)) (pos (suc ri)) (pos (suc ro)) (pos f) ≡ ok n
    → Pays (pos (suc x)) n (pos (suc ri)) (pos (suc ro)) (pos f)
asks_enough x ri ro f {n} h e =
    let below = get_amount_in_below x ri (suc ro) f e in
    let m : ℕ = suc ri * suc x * 10_000 / ((suc ro - suc x) * (10_000 - f)) in
    let asked : n ≡ pos (suc m) = cc (e, get_amount_in-pos x ri (suc ro) f below h, add-one m) in
    let enough : suc x ≤ amount_out (suc m) (suc ri) (suc ro) (10_000 - f) =
      subst (λ t. suc x ≤ amount_out t (suc ri) (suc ro) (10_000 - f)) (add-one m)
        (amount_out-amount_in (suc x) (suc ri) (suc ro) (10_000 - f) (omega arith) below
          (omega arith)) in
    rw asked (
      pos (amount_out (suc m) (suc ri) (suc ro) (10_000 - f)),
      get_amount_out-pos m ri ro f (le_of_suc h),
      omega (arith, enough),
    )

-- With a fee of at least 0 and less than 10000 bps: what `getAmountIn` asks for, sold to the same
-- pool, is accepted and pays at least what was wanted.
pub get_amount_out-get_amount_in :
    (amount_out reserve_in reserve_out fee_bps : ℤ) {n : ℤ}
    → pos 0 ≤ℤ fee_bps
    → fee_bps <ℤ bps
    → get_amount_in amount_out reserve_in reserve_out fee_bps ≡ ok n
    → (q : ℤ) × (get_amount_out n reserve_in reserve_out fee_bps ≡ ok q) × (amount_out ≤ℤ q)
unfolding get_amount_in
get_amount_out-get_amount_in _ _ _ (negsuc f) lo hi e = absurd (omega arith)
get_amount_out-get_amount_in (pos (suc x)) (pos (suc ri)) (pos (suc ro)) (pos f) lo hi e =
    asks_enough x ri ro f (omega arith) e
get_amount_out-get_amount_in (pos (suc x)) (pos (suc ri)) _ (pos f) lo hi e = absurd (ground arith)
get_amount_out-get_amount_in (pos (suc x)) _ _ (pos f) lo hi e = absurd (ground arith)
get_amount_out-get_amount_in _ _ _ (pos f) lo hi e = absurd (ground arith)

-- With a fee of 0 to 10000 bps, selling more to the same pool also succeeds and pays at least as
-- much.
pub get_amount_out_mono :
    (a b reserve_in reserve_out fee_bps : ℤ) {q : ℤ}
    → pos 0 ≤ℤ fee_bps
    → fee_bps ≤ℤ bps
    → a ≤ℤ b
    → get_amount_out a reserve_in reserve_out fee_bps ≡ ok q
    → (r : ℤ) × (get_amount_out b reserve_in reserve_out fee_bps ≡ ok r) × (q ≤ℤ r)
get_amount_out_mono a (pos zero) reserve_in reserve_out fee_bps lo hi ab e =
    let s = get_amount_out-Swap a reserve_in reserve_out fee_bps lo hi e in
    absurd (omega (arith, subst (λ t. t ≤ℤ pos zero) s.in_eq ab))
get_amount_out_mono a (negsuc b) reserve_in reserve_out fee_bps lo hi ab e =
    let s = get_amount_out-Swap a reserve_in reserve_out fee_bps lo hi e in
    absurd (omega (arith, subst (λ t. t ≤ℤ negsuc b) s.in_eq ab))
get_amount_out_mono a (pos (suc b)) reserve_in reserve_out fee_bps lo hi ab e =
    let s = get_amount_out-Swap a reserve_in reserve_out fee_bps lo hi e in
    rw (s.out_eq, s.ri_eq, s.ro_eq, s.fee_eq)
      (
        pos (amount_out (suc b) (suc s.ri) (suc s.ro) (10_000 - s.f)),
        get_amount_out-pos b s.ri s.ro s.f (omega (arith, subst (λ t. t ≤ℤ bps) s.fee_eq hi)),
        omega (
          arith,
          amount_out_mono (suc s.a) (suc b) (suc s.ri) (suc s.ro) (10_000 - s.f) (omega arith)
              (omega arith) (omega (arith, subst (λ t. t ≤ℤ pos (suc b)) s.in_eq ab)),
        ),
      )

-- From the growth of the products: what comes back for the output is at most what was paid in.
returns_less :
    (a ri q rest q' : ℕ)
    → 0 < rest
    → ri * (q + rest) ≤ (ri + a) * rest
    → rest * (ri + a) ≤ (rest + q) * (ri + a - q')
    → q' ≤ ri + a
    → q' ≤ a
returns_less a ri q rest q' rest_pos first second le =
    let kept : ℕ = ri + a - q' in
    let split : ri + a ≡ kept + q' = omega arith in
    let back : q' * (rest + q) ≤ q * (ri + a) =
      omega (arith, second, ap (λ (t : ℕ). (rest + q) * t) split) in
    let paid : q * (ri + a) ≤ a * (rest + q) = omega (arith, first) in
    le_of_mul-le-mul_left {k = rest + q} (omega (arith, back, paid)) (omega arith)

amount_out_value :
    (a ri ro f : ℕ) {q : ℤ}
    → f ≤ 10_000
    → get_amount_out (pos a) (pos ri) (pos ro) (pos f) ≡ ok q
    → (0 < a) × (0 < ri) × (0 < ro) × (q ≡ pos (amount_out a ri ro (10_000 - f)))
unfolding get_amount_out
amount_out_value (suc a) (suc ri) (suc ro) f h e =
    (omega arith, omega arith, omega arith, cc (e, get_amount_out-pos a ri ro f h))
amount_out_value (suc a) (suc ri) zero f h e = absurd (ground arith)
amount_out_value (suc a) zero _ f h e = absurd (ground arith)
amount_out_value zero _ _ f h e = absurd (ground arith)

there_and_back :
    (a ri ro f : ℕ) {q q' : ℤ}
    → f ≤ 10_000
    → get_amount_out (pos a) (pos ri) (pos ro) (pos f) ≡ ok q
    → get_amount_out q (pos ro -ℤ q) (pos ri +ℤ pos a) (pos f) ≡ ok q'
    → q' ≤ℤ pos a
there_and_back a ri ro f {q} {q'} h e e' =
    let keep : ℕ = 10_000 - f in
    let n : ℕ = amount_out a ri ro keep in
    let (a_pos, ri_pos, ro_pos, value) = amount_out_value a ri ro f h e in
    let below : n < ro = amount_out-lt a ri ro keep ri_pos ro_pos in
    let rest_eq : pos ro -ℤ q ≡ pos (ro - n) = rw value (pos--ℤ ro n (le_of_suc below)) in
    let back : get_amount_out (pos n) (pos (ro - n)) (pos (ri + a)) (pos f) ≡ ok q' =
      cc (e', value, rest_eq, pos-+ℤ ri a) in
    let (n_pos, rest_pos, _, value') = amount_out_value n (ro - n) (ri + a) f h back in
    let m : ℕ = amount_out n (ro - n) (ri + a) keep in
    let below' : m < ri + a = amount_out-lt n (ro - n) (ri + a) keep rest_pos (omega arith) in
    let split : ro ≡ n + (ro - n) = omega arith in
    rw value' (
      omega (
        arith,
        returns_less a ri n (ro - n) m rest_pos
            (subst (λ t. ri * t ≤ (ri + a) * (ro - n)) split
              (amount_out_product a ri ro keep ri_pos ro_pos (omega arith)))
            (amount_out_product n (ro - n) (ri + a) keep rest_pos (omega arith) (omega arith))
            (le_of_suc below'),
      ))

-- With a fee of 0 to 10000 bps, selling what a swap paid out back to the pool that it left returns
-- at most what was paid in.
pub there_and_back_any :
    (a ri ro f : ℤ) {q q' : ℤ}
    → pos 0 ≤ℤ f
    → f ≤ℤ bps
    → get_amount_out a ri ro f ≡ ok q
    → get_amount_out q (ro -ℤ q) (ri +ℤ a) f ≡ ok q'
    → q' ≤ℤ a
there_and_back_any a ri ro f {q} {q'} lo hi e e' =
    let s = get_amount_out-Swap a ri ro f lo hi e in
    rw s.in_eq (
      there_and_back (suc s.a) (suc s.ri) (suc s.ro) s.f {q = q}
        (omega (arith, subst (λ t. t ≤ℤ bps) s.fee_eq hi))
        (cc (e, s.in_eq, s.ri_eq, s.ro_eq, s.fee_eq))
        (cc (e', s.in_eq, s.ri_eq, s.ro_eq, s.fee_eq)))
