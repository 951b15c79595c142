-- ===== src/Executor/Engine/Booking/Profit.antt =====
-- engine.service.ts: the profit that `calculatePnl` reports, against what the two legs earn.
use native.Mathlib.Nat.{zero-mul}
use internship_project_peanu.Prelude.{
  ℕ, zero, suc, ◌*◌, ◌/◌, ◌≡◌, refl, Bool, true, false, if◌then◌else◌, arith, ap, ◌∙◌, sym,
}
use internship_project_peanu.Prelude.Int.{
  ℤ, pos, negsuc, sub_ℕ, ◌-ℤ◌, ◌*ℤ◌, ◌/ℤ◌, neg, ltb_ℤ, eq_of_parts, neg_parts, -ℤ_parts,
}
use internship_project_peanu.Core.{price_scale}
use internship_project_peanu.Strategy.Signal.{Direction, buy_cex_sell_dex, buy_dex_sell_cex}
use internship_project_peanu.Inventory.Tracker.{Side, buy, sell}
use internship_project_peanu.Executor.Engine.Context.{ExecutionContext}
use internship_project_peanu.Executor.Engine.Legs.{or_else, cex_side, opposite}
use internship_project_peanu.Executor.Engine.Unwind.{is_dex}
use internship_project_peanu.Executor.Engine.Booking.{leg1_side, gross_scaled, calculate_pnl}

neg-sub_ℕ : (n : ℕ) → neg (sub_ℕ 0 n) ≡ pos n
unfolding neg
neg-sub_ℕ n = ground arith

sub_ℕ-suc : (n : ℕ) → sub_ℕ 0 (suc n) ≡ negsuc n
sub_ℕ-suc n = ground arith

neg-negsuc : (n : ℕ) → neg (negsuc n) ≡ pos (suc n)
unfolding neg
neg-negsuc n = ground arith

neg-/ℤ : (x : ℤ) → neg x /ℤ price_scale ≡ neg (x /ℤ price_scale)
unfolding neg ◌/ℤ◌
neg-/ℤ (pos zero) = refl
neg-/ℤ (pos (suc n)) = ap (λ z. z /ℤ price_scale) (sub_ℕ-suc n)
neg-/ℤ (negsuc n) =
    ap (λ z. z /ℤ price_scale) (neg-negsuc n) ∙ sym (neg-sub_ℕ (suc n / 100_000_000))

zero-case : (m : ℕ) → pos (0 * m) ≡ neg (pos (0 * m))
unfolding neg
zero-case m = rw (zero-mul m) refl

neg-*ℤ : (a s : ℤ) → neg a *ℤ s ≡ neg (a *ℤ s)
unfolding neg ◌*ℤ◌
neg-*ℤ (pos zero) (pos m) = zero-case m
neg-*ℤ (pos zero) (negsuc m) = rw (zero-mul (suc m)) refl
neg-*ℤ (pos (suc n)) (pos m) = ap (λ z. z *ℤ pos m) (sub_ℕ-suc n)
neg-*ℤ (pos (suc n)) (negsuc m) =
    ap (λ z. z *ℤ negsuc m) (sub_ℕ-suc n) ∙ sym (neg-sub_ℕ (suc n * suc m))
neg-*ℤ (negsuc n) (pos m) = ap (λ z. z *ℤ pos m) (neg-negsuc n) ∙ sym (neg-sub_ℕ (suc n * m))
neg-*ℤ (negsuc n) (negsuc m) = ap (λ z. z *ℤ negsuc m) (neg-negsuc n)

neg--ℤ : (a b : ℤ) → b -ℤ a ≡ neg (a -ℤ b)
neg--ℤ a b =
    eq_of_parts (b -ℤ a) (neg (a -ℤ b))
      (omega (arith, -ℤ_parts b a, neg_parts (a -ℤ b), -ℤ_parts a b))

-- What buying at `bought` and selling at `sold` earns before fees.
abbrev pub earned : ℤ → ℤ → ℤ → ℤ
earned bought sold size = ((sold -ℤ bought) *ℤ size) /ℤ price_scale

reversed : (a b s : ℤ) → earned a b s ≡ neg (earned b a s)
reversed a b s =
    ap (λ n. (n *ℤ s) /ℤ price_scale) (neg--ℤ a b)
    ∙ ap (λ n. n /ℤ price_scale) (neg-*ℤ (a -ℤ b) s)
    ∙ neg-/ℤ ((a -ℤ b) *ℤ s)

-- The price of the leg that buys, and of the leg that sells.
abbrev pub bought_at : Side → ℤ → ℤ → ℤ
bought_at buy leg1 leg2 = leg1
bought_at sell leg1 leg2 = leg2

abbrev pub sold_at : Side → ℤ → ℤ → ℤ
sold_at buy leg1 leg2 = leg2
sold_at sell leg1 leg2 = leg1

gross_on :
    (on_dex : Bool) (d : Direction) (p1 p2 size : ℤ)
    → let side = (if on_dex then opposite (cex_side d) else cex_side d) in
      let earns = earned (bought_at side p1 p2) (sold_at side p1 p2) size in
      gross_scaled d p1 p2 size ≡ (if on_dex then neg earns else earns)
gross_on true buy_cex_sell_dex p1 p2 size = reversed p1 p2 size
gross_on true buy_dex_sell_cex p1 p2 size = reversed p2 p1 size
gross_on false buy_cex_sell_dex p1 p2 size = refl
gross_on false buy_dex_sell_cex p1 p2 size = refl

module _ {D : Type 0} where
  -- What the two legs earn before fees, by the sides on which they are booked.
  abbrev pub gross_earned : ExecutionContext D → ℤ
  gross_earned ctx =
      let p1 = or_else ctx.leg1_fill_price (pos 0) in
      let p2 = or_else ctx.leg2_fill_price (pos 0) in
      earned (bought_at (leg1_side ctx) p1 p2) (sold_at (leg1_side ctx) p1 p2)
        (or_else ctx.leg1_fill_size (pos 0))

  -- The signal's fee estimate, for the part that was filled.
  abbrev pub fee_estimate : ExecutionContext D → ℤ
  fee_estimate ctx =
      let size = or_else ctx.leg1_fill_size (pos 0) in
      let ratio =
        if ltb_ℤ (pos 0) ctx.signal.size
        then (size *ℤ pos 10_000) /ℤ ctx.signal.size
        else pos 10_000 in
      (ctx.signal.expected_fees *ℤ ratio) /ℤ pos 10_000

  -- The profit that is reported is what the legs earn less the fee estimate if the first leg was
  -- at the exchange; if it was the DEX leg, what they earn is counted with the wrong sign.
  pub calculate_pnl-gross_earned :
      (ctx : ExecutionContext D)
      → calculate_pnl ctx
        ≡ (if is_dex ctx.leg1_venue then neg (gross_earned ctx) else gross_earned ctx)
          -ℤ fee_estimate ctx
  unfolding calculate_pnl
  calculate_pnl-gross_earned ctx =
      ap (λ n. n -ℤ fee_estimate ctx)
        (gross_on (is_dex ctx.leg1_venue) ctx.signal.direction (or_else ctx.leg1_fill_price (pos 0))
          (or_else ctx.leg2_fill_price (pos 0)) (or_else ctx.leg1_fill_size (pos 0)))
