-- ===== src/Safety/Risk.antt =====
-- safety/risk.service.ts: `RiskManager`, with safety/risk.constants.ts. `Date.now()` is an argument.
pub mod Session
use internship_project_peanu.Prelude.{
  ℕ, ◌+◌, Bool, true, false, List, [], ◌∷◌, ◌++◌, leb, if◌then◌else◌, ◌&&◌, length,
}
use internship_project_peanu.Prelude.Int.{ℤ, pos, ◌+ℤ◌, ◌-ℤ◌, ◌*ℤ◌, ◌/ℤ◌, neg, ltb_ℤ, leb_ℤ}
use internship_project_peanu.Prelude.Double.{Double}
use internship_project_peanu.Core.{price_scale}
use internship_project_peanu.Strategy.Signal.{Signal}
use internship_project_peanu.Safety.Check.{
  RiskCheckResult, allow, refuse, trade_exceeds_max, trade_exceeds_capital_pct,
  expected_loss_exceeds_limit, daily_loss_limit_reached, drawdown_exceeds_limit,
  consecutive_loss_limit, hourly_trade_limit,
}

pub record RiskLimits (D : Type 0) : Type 0 where
  pub max_trade_usd : ℤ
  pub max_trade_pct : D
  pub max_position_per_token : ℤ
  pub max_open_positions : ℕ
  pub max_loss_per_trade : ℤ
  pub max_daily_loss : ℤ
  pub max_drawdown_pct : D
  pub max_trades_per_hour : ℕ
  pub consecutive_loss_limit : ℕ

pub record RiskManager (D : Type 0) : Type 0 where
  pub limits : RiskLimits D
  pub peak_capital : ℤ
  pub current_capital : ℤ
  pub daily_pnl : ℤ
  pub consecutive_losses : ℕ
  pub trade_timestamps : List ℕ

abbrev pub hour_ms : ℕ
hour_ms = 3_600_000

-- The leading entries with `t <= now - HOUR_MS` are dropped.
unfoldable pub drop_stale : ℕ → List ℕ → List ℕ
drop_stale now [] = []
drop_stale now (t ∷ ts) = if leb (t + hour_ms) now then drop_stale now ts else t ∷ ts

unfoldable pub trade_value : {D : Type 0} → Signal D → ℤ
trade_value s = (s.size *ℤ s.cex_price) /ℤ price_scale

module _ {D : Type 0} where
  unfoldable pub new : RiskLimits D → ℤ → RiskManager D
  new limits initial_capital = record {
    limits = limits;
    peak_capital = initial_capital;
    current_capital = initial_capital;
    daily_pnl = pos 0;
    consecutive_losses = 0;
    trade_timestamps = [];
  }

  unfoldable pub prune_trade_window : ℕ → RiskManager D → RiskManager D
  prune_trade_window now m = record m { trade_timestamps = drop_stale now m.trade_timestamps }

  unfoldable pub record_trade : ℕ → ℤ → RiskManager D → RiskManager D
  record_trade now pnl m =
      let current = m.current_capital +ℤ pnl in
      record m {
        daily_pnl = m.daily_pnl +ℤ pnl;
        current_capital = current;
        peak_capital = if ltb_ℤ m.peak_capital current then current else m.peak_capital;
        trade_timestamps = m.trade_timestamps ++ now ∷ [];
        consecutive_losses = if ltb_ℤ pnl (pos 0) then m.consecutive_losses + 1 else 0;
      }

  unfoldable pub reset_daily : RiskManager D → RiskManager D
  reset_daily m = record m { daily_pnl = pos 0; consecutive_losses = 0 }

  unfoldable pub set_initial_capital : ℤ → RiskManager D → RiskManager D
  set_initial_capital capital m = record m { current_capital = capital; peak_capital = capital }

module _ {D : Type 0} (f : Double D) where
  open f use {of_ℤ, mul, round, floor}

  unfoldable pub max_by_pct : RiskManager D → ℤ
  max_by_pct m = floor (mul (of_ℤ m.current_capital) m.limits.max_trade_pct)

  -- `drawdownBps >= limitBps`, when the peak is positive
  unfoldable pub drawdown_exceeded : RiskManager D → Bool
  drawdown_exceeded m =
      let drawdown_bps = ((m.peak_capital -ℤ m.current_capital) *ℤ pos 10_000) /ℤ m.peak_capital in
      let limit_bps = round (mul m.limits.max_drawdown_pct (of_ℤ (pos 10_000))) in
      ltb_ℤ (pos 0) m.peak_capital && leb_ℤ limit_bps drawdown_bps

  -- The window is pruned only where the code gets that far.
  unfoldable pub check_pre_trade : ℕ → Signal D → RiskManager D → RiskCheckResult × RiskManager D
  unfolding prune_trade_window
  check_pre_trade now s m =
      let value = trade_value s in
      let pruned = prune_trade_window now m in
      if ltb_ℤ m.limits.max_trade_usd value
      then (refuse trade_exceeds_max, m)
      else if ltb_ℤ (max_by_pct m) value
      then (refuse trade_exceeds_capital_pct, m)
      else if ltb_ℤ s.expected_net_pnl (pos 0)
          && ltb_ℤ m.limits.max_loss_per_trade (neg s.expected_net_pnl)
      then (refuse expected_loss_exceeds_limit, m)
      else if leb_ℤ m.daily_pnl (neg m.limits.max_daily_loss)
      then (refuse daily_loss_limit_reached, m)
      else if drawdown_exceeded m
      then (refuse drawdown_exceeds_limit, m)
      else if leb m.limits.consecutive_loss_limit m.consecutive_losses
      then (refuse consecutive_loss_limit, m)
      else if leb m.limits.max_trades_per_hour (length pruned.trade_timestamps)
      then (refuse hourly_trade_limit, pruned)
      else (allow, pruned)

  -- `DEFAULT_RISK_LIMITS` and `TESTNET_RISK_LIMITS`; 0.2 is the quotient of 2 and 10.
  unfoldable pub default_risk_limits : RiskLimits D
  default_risk_limits = record {
    max_trade_usd = pos 20 *ℤ price_scale;
    max_trade_pct = f.quot (of_ℤ (pos 2)) (of_ℤ (pos 10));
    max_position_per_token = pos 30 *ℤ price_scale;
    max_open_positions = 1;
    max_loss_per_trade = pos 5 *ℤ price_scale;
    max_daily_loss = pos 15 *ℤ price_scale;
    max_drawdown_pct = f.quot (of_ℤ (pos 2)) (of_ℤ (pos 10));
    max_trades_per_hour = 20;
    consecutive_loss_limit = 1;
  }

  unfoldable pub testnet_risk_limits : RiskLimits D
  testnet_risk_limits = record {
    max_trade_usd = pos 1_000 *ℤ price_scale;
    max_trade_pct = f.quot (of_ℤ (pos 2)) (of_ℤ (pos 10));
    max_position_per_token = pos 30 *ℤ price_scale;
    max_open_positions = 1;
    max_loss_per_trade = pos 5 *ℤ price_scale;
    max_daily_loss = pos 500 *ℤ price_scale;
    max_drawdown_pct = f.quot (of_ℤ (pos 2)) (of_ℤ (pos 10));
    max_trades_per_hour = 20;
    consecutive_loss_limit = 3;
  }

  unfoldable pub get_risk_limits : Bool → RiskLimits D
  unfolding default_risk_limits testnet_risk_limits
  get_risk_limits production = if production then default_risk_limits else testnet_risk_limits
