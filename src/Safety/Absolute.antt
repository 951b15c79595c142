-- ===== src/Safety/Absolute.antt =====
-- safety/safety.constants.ts: the ceilings that hold whatever the configuration.
pub mod Ceilings
use internship_project_peanu.Prelude.{ℕ, leb, if◌then◌else◌}
use internship_project_peanu.Prelude.Int.{ℤ, pos, ◌*ℤ◌, neg, ltb_ℤ, leb_ℤ}
use internship_project_peanu.Core.{price_scale}
use internship_project_peanu.Safety.Check.{
  RiskCheckResult, allow, refuse, absolute_trade_max, absolute_daily_loss,
  below_absolute_min_capital, absolute_hourly_limit,
}

abbrev pub absolute_max_trade_usd : ℤ
absolute_max_trade_usd = pos 2_500_000_000

abbrev pub absolute_max_daily_loss : ℤ
absolute_max_daily_loss = pos 2_000_000_000

abbrev pub absolute_min_capital : ℤ
absolute_min_capital = pos 4_000_000_000

abbrev pub absolute_max_trades_per_hour : ℕ
absolute_max_trades_per_hour = 30

unfoldable pub absolute_safety_check : ℤ → ℤ → ℤ → ℕ → RiskCheckResult
absolute_safety_check trade_usd daily_loss total_capital trades_this_hour =
    if ltb_ℤ absolute_max_trade_usd trade_usd
    then refuse absolute_trade_max
    else if leb_ℤ daily_loss (neg absolute_max_daily_loss)
    then refuse absolute_daily_loss
    else if ltb_ℤ total_capital absolute_min_capital
    then refuse below_absolute_min_capital
    else if leb absolute_max_trades_per_hour trades_this_hour
    then refuse absolute_hourly_limit
    else allow
