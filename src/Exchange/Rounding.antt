-- ===== src/Exchange/Rounding.antt =====
-- exchange/cexClient/exchange.utils.ts, and `TradingRules` of exchange.interfaces.ts.
pub mod Bounds
use internship_project_peanu.Prelude.{Bool, String, if◌then◌else◌}
use internship_project_peanu.Prelude.Int.{ℤ, pos, ◌+ℤ◌, ◌*ℤ◌, ◌/ℤ◌, leb_ℤ, eqb_ℤ}
use internship_project_peanu.Core.{price_scale}

pub record TradingRules : Type 0 where
  pub symbol : String
  pub step_size : ℤ
  pub tick_size : ℤ
  pub min_notional : ℤ

unfoldable pub round_quantity : ℤ → ℤ → ℤ
round_quantity qty step_size =
    if eqb_ℤ step_size (pos 0) then qty else (qty /ℤ step_size) *ℤ step_size

unfoldable pub round_price : ℤ → ℤ → ℤ
round_price price tick_size =
    if eqb_ℤ tick_size (pos 0)
    then price
    else ((price +ℤ tick_size /ℤ pos 2) /ℤ tick_size) *ℤ tick_size

unfoldable pub check_min_notional : ℤ → ℤ → ℤ → Bool
check_min_notional qty price min_notional = leb_ℤ min_notional ((qty *ℤ price) /ℤ price_scale)
