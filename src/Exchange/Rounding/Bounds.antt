-- ===== src/Exchange/Rounding/Bounds.antt =====
-- exchange.utils.ts: how far rounding moves a quantity or a price.
use native.Mathlib.Nat.{div-mul-le_self, lt-div-mul-add}
use internship_project_peanu.Prelude.{
  ℕ, ◌+◌, ◌*◌, ◌/◌, ◌≤◌, ◌<◌, ◌≡◌, false, arith, ap, ◌∙◌, if_false,
}
use internship_project_peanu.Prelude.Int.{pos, ◌*ℤ◌, ◌/ℤ◌, eqb_ℤ, pos-+ℤ}
use internship_project_peanu.Exchange.Rounding.{round_quantity, round_price}

not_zero : (n : ℕ) → 0 < n → eqb_ℤ (pos n) (pos 0) ≡ false
not_zero n h = ground arith

-- A quantity is rounded to a multiple of the step that is at most the quantity and less than one
-- step below it, and a price to a multiple of the tick that lies at most half a tick (rounded down)
-- above it and less than one tick less that half below it.
pub rounding_bounds :
    (amount step : ℕ)
    → 0 < step
    → ((n : ℕ) × (round_quantity (pos amount) (pos step) ≡ pos (n * step))
        × (n * step ≤ amount)
        × (amount < n * step + step))
      × ((n : ℕ) × (round_price (pos amount) (pos step) ≡ pos (n * step))
          × (n * step ≤ amount + step / 2)
          × (amount + step / 2 < n * step + step))
unfolding round_quantity round_price ◌*ℤ◌ ◌/ℤ◌
rounding_bounds amount step h = (
  (
    amount / step,
    if_false (eqb_ℤ (pos step) (pos 0)) _ _ (not_zero step h),
    div-mul-le_self amount step,
    lt-div-mul-add h,
  ),
  (
    (amount + step / 2) / step,
    if_false (eqb_ℤ (pos step) (pos 0)) _ _ (not_zero step h)
        ∙ ap (λ z. (z /ℤ pos step) *ℤ pos step) (pos-+ℤ amount (step / 2)),
    div-mul-le_self (amount + step / 2) step,
    lt-div-mul-add h,
  ),
)
