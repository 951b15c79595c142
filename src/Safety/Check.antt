-- ===== src/Safety/Check.antt =====
-- safety/risk.interfaces.ts: `RiskCheckResult`. Each constructor of `Reason` stands for one of the
-- code's messages, without the amounts that are formatted into it.
use internship_project_peanu.Prelude.{Bool, true, false}

pub data Reason : Type 0 where
  all_clear : Reason
  trade_exceeds_max : Reason
  trade_exceeds_capital_pct : Reason
  expected_loss_exceeds_limit : Reason
  daily_loss_limit_reached : Reason
  drawdown_exceeds_limit : Reason
  consecutive_loss_limit : Reason
  hourly_trade_limit : Reason
  absolute_trade_max : Reason
  absolute_daily_loss : Reason
  below_absolute_min_capital : Reason
  absolute_hourly_limit : Reason
  invalid_cex_price : Reason
  invalid_dex_price : Reason
  spread_too_high : Reason
  signal_too_old : Reason
  invalid_trade_size : Reason
  price_deviates : Reason

pub record RiskCheckResult : Type 0 where
  pub allowed : Bool
  pub reason : Reason

abbrev pub allow : RiskCheckResult
allow = record { allowed = true; reason = all_clear }

abbrev pub refuse : Reason → RiskCheckResult
refuse r = record { allowed = false; reason = r }
