-- ===== src/Pricing/Calculator/Impact.antt =====
-- uniswap-v2.calculator.ts: the execution price of a swap is at most the spot price, so the price
-- impact that the code reports lies between 0 and 100%.
use native.Mathlib.Nat.{
  le-div_iff_mul-le, div-mul-le_self, mul-le-mul_left, mul-le-mul_right, le_of_mul-le-mul_left,
  div-le_of_le-mul,
}
use internship_project_peanu.Prelude.{ℕ, suc, ◌+◌, ◌-◌, ◌*◌, ◌/◌, ◌≤◌, ◌<◌, ◌≡◌, sym, subst, arith}
use internship_project_peanu.Prelude.Int.{ℤ, pos, ◌≤ℤ◌, pos--ℤ, pos-*ℤ, pos-/ℤ}
use internship_project_peanu.Prelude.Result.{ok}
use internship_project_peanu.Pricing.Calculator.{
  get_amount_out, get_spot_price, get_execution_price, get_price_impact_bps, bps,
}
use internship_project_peanu.Pricing.Calculator.Bounds.{
  amount_out, amount_out-lt, get_amount_out-Swap,
}

-- What is paid out for each unit sold is at most what the reserves stand at.
below_spot_core :
    (a ri q d keep : ℕ)
    → q * (ri * 10_000 + a * keep) ≤ a * keep * (q + d)
    → keep ≤ 10_000
    → q * ri ≤ a * (q + d)
below_spot_core a ri q d keep h k = omega (arith, mul-le-mul_left (a * d) k)

amount_out-below_spot :
    (a ri ro keep : ℕ) → 0 < ri → 0 < ro → keep ≤ 10_000 → amount_out a ri ro keep * ri ≤ a * ro
amount_out-below_spot a ri ro keep ri_pos ro_pos k =
    let q : ℕ = amount_out a ri ro keep in
    let below : q < ro = amount_out-lt a ri ro keep ri_pos ro_pos in
    let split : ro ≡ q + (ro - q) = omega arith in
    let fits : q * (ri * 10_000 + a * keep) ≤ a * keep * ro = div-mul-le_self _ _ in
    subst (λ t. q * ri ≤ a * t) (sym split)
      (below_spot_core a ri q (ro - q) keep
        (subst (λ t. q * (ri * 10_000 + a * keep) ≤ a * keep * t) split fits) k)

-- Rounding both quotients down keeps the order.
price_order : (a ri q ro s x : ℕ) → 0 < a → q * ri ≤ a * ro → x * a ≤ q * s → x * ri ≤ ro * s
price_order a ri q ro s x a_pos h fits =
    le_of_mul-le-mul_left {k = a} (omega (arith, mul-le-mul_right s h, mul-le-mul_right ri fits))
      a_pos

-- The prices on naturals, at the calculator's scale.
abbrev scale : ℕ
scale = 1_000_000_000_000_000_000

pub execution-le-spot :
    (a ri ro keep : ℕ)
    → 0 < a
    → 0 < ri
    → 0 < ro
    → keep ≤ 10_000
    → amount_out a ri ro keep * scale / a ≤ ro * scale / ri
execution-le-spot a ri ro keep a_pos ri_pos ro_pos k = (le-div_iff_mul-le ri_pos).1 (
    price_order a ri (amount_out a ri ro keep) ro scale (amount_out a ri ro keep * scale / a) a_pos
      (amount_out-below_spot a ri ro keep ri_pos ro_pos k) (div-mul-le_self _ _))

spot_value :
    (ri ro : ℕ) {s : ℤ}
    → get_spot_price (pos (suc ri)) (pos (suc ro)) ≡ ok s
    → s ≡ pos (suc ro * scale / suc ri)
unfolding get_spot_price
spot_value ri ro e = ground (arith, pos-*ℤ (suc ro) scale, pos-/ℤ (suc ro * scale) (suc ri))

execution_value :
    (a n : ℕ) {x : ℤ}
    → get_execution_price (pos (suc a)) (pos n) ≡ ok x
    → x ≡ pos (n * scale / suc a)
unfolding get_execution_price
execution_value a n e = ground (arith, pos-*ℤ n scale, pos-/ℤ (n * scale) (suc a))

impact_value :
    (s x : ℕ) {i : ℤ}
    → x ≤ s
    → get_price_impact_bps (pos s) (pos x) ≡ ok i
    → (0 < s) × (i ≡ pos ((s - x) * 10_000 / s))
unfolding get_price_impact_bps
impact_value s x h e =
    ground (arith, pos--ℤ s x h, pos-*ℤ (s - x) 10_000, pos-/ℤ ((s - x) * 10_000) s)

abbrev InRange : ℤ → ℤ → ℤ → Type 0
InRange spot execution impact = (execution ≤ℤ spot) × (pos 0 ≤ℤ impact) × (impact ≤ℤ bps)

impact_range :
    (s x : ℕ) {i : ℤ}
    → x ≤ s
    → get_price_impact_bps (pos s) (pos x) ≡ ok i
    → InRange (pos s) (pos x) i
impact_range s x h e =
    let (s_pos, value) = impact_value s x h e in
    rw value (
      omega arith,
      omega arith,
      omega (
        arith,
        div-le_of_le-mul s {m = (s - x) * 10_000} {n = 10_000}
            (let le : s - x ≤ s = omega arith in mul-le-mul_right 10_000 le),
      ),
    )

-- With a fee of 0 to 10000 bps: for a swap that succeeds, at the spot price, execution price and
-- impact that the code computes of it, the execution price is at most the spot price and the
-- impact is between 0 and 10000 bps.
pub price_impact_range :
    (a ri ro f : ℤ) {q s x i : ℤ}
    → pos 0 ≤ℤ f
    → f ≤ℤ bps
    → get_amount_out a ri ro f ≡ ok q
    → get_spot_price ri ro ≡ ok s
    → get_execution_price a q ≡ ok x
    → get_price_impact_bps s x ≡ ok i
    → (x ≤ℤ s) × (pos 0 ≤ℤ i) × (i ≤ℤ bps)
price_impact_range a ri ro f {q} {s} {x} {i} lo hi swapped spot execution impact =
    let w = get_amount_out-Swap a ri ro f lo hi swapped in
    let keep : ℕ = 10_000 - w.f in
    let out : ℕ = amount_out (suc w.a) (suc w.ri) (suc w.ro) keep in
    let sn : ℕ = suc w.ro * scale / suc w.ri in
    let xn : ℕ = out * scale / suc w.a in
    let spot_eq : s ≡ pos sn = spot_value w.ri w.ro (cc (spot, w.ri_eq, w.ro_eq)) in
    let execution_eq : x ≡ pos xn = execution_value w.a out (cc (execution, w.in_eq, w.out_eq)) in
    let order : xn ≤ sn =
      execution-le-spot (suc w.a) (suc w.ri) (suc w.ro) keep (omega arith) (omega arith)
        (omega arith) (omega arith) in
    rw (spot_eq, execution_eq) (impact_range sn xn order (cc (impact, spot_eq, execution_eq)))
