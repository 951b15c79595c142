-- ===== src/Integration/ArbBot/Gates.antt =====
-- arb_bot.service.ts: `checkSafetyGates`, and `tick` up to its first wait.
pub mod Cases
use internship_project_peanu.Prelude.{
  ℕ, ◌+◌, Bool, true, false, not, ◌&&◌, Option, none, some, List, [], ◌∷◌, String, length,
  if◌then◌else◌,
}
use internship_project_peanu.Prelude.Int.{ℤ, pos, ◌+ℤ◌, ◌*ℤ◌, ◌/ℤ◌, ltb_ℤ}
use internship_project_peanu.Prelude.Result.{Error, Result, ok, err}
use internship_project_peanu.Prelude.Double.{Double}
use internship_project_peanu.Prelude.Dict
use internship_project_peanu.Core.{price_scale}
use internship_project_peanu.Inventory.Tracker.{binance, wallet, get_available}
use internship_project_peanu.Inventory.Rebalancer.{check_all}
use internship_project_peanu.Inventory.Pnl.{ArbRecord, append_trade}
use internship_project_peanu.Exchange.OrderBook.{OrderBook}
use internship_project_peanu.Strategy.Signal.{Signal}
use internship_project_peanu.Strategy.Generator.{Market, generate, peek}
use internship_project_peanu.Strategy.Scorer.{score, apply_decay, record_result}
use internship_project_peanu.Safety.Check.{
  RiskCheckResult, Reason, all_clear, trade_exceeds_max, trade_exceeds_capital_pct,
  expected_loss_exceeds_limit, daily_loss_limit_reached, drawdown_exceeds_limit,
  consecutive_loss_limit, hourly_trade_limit, absolute_trade_max, absolute_daily_loss,
  below_absolute_min_capital, absolute_hourly_limit, invalid_cex_price, invalid_dex_price,
  spread_too_high, signal_too_old, invalid_trade_size, price_deviates,
}
use internship_project_peanu.Safety.Risk.{
  RiskManager, trade_value, check_pre_trade, record_trade, prune_trade_window,
}
use internship_project_peanu.Safety.Absolute.{absolute_safety_check}
use internship_project_peanu.Safety.KillSwitch.{
  KillSwitchCache, AutoKillSwitch, is_kill_switch_active, check, record_error,
}
use internship_project_peanu.Safety.Validator.{validate_signal}
use internship_project_peanu.Executor.CircuitBreaker.{is_open}
use internship_project_peanu.Executor.Engine.Context.{
  ExecutionContext, Clients, Clock, Request, split_pair,
}
use internship_project_peanu.Executor.Engine.Run.{Execution, is_done, execute}
use internship_project_peanu.Integration.Records.{signal_to_arb_record, execution_to_arb_record}
use internship_project_peanu.Integration.ArbBot.{
  Bot, BotState, idle, generating, executing, GasAnswer, SyncAnswers, shared_generator,
  shared_executor, shared_planner, stop, estimate_gas_cost_usd, min_profit_buffer, sync_balances,
  balances_match,
}
use internship_project_peanu.Integration.ArbBot.Flight.{
  Flight, GateAnswers, DecideAnswers, TradeAnswers, SettleAnswers, Answers, after_status, finish,
  failed, count_trade, through_usd, deciding, trading, settling,
}

abbrev pub is_idle : BotState → Bool
is_idle idle = true
is_idle generating = false
is_idle executing = false

module _ {D : Type 0} where
  -- The cached look for the kill switch's file, and the bot with the cache after it.
  abbrev pub file_check_of : GateAnswers → Bot D → Bool × KillSwitchCache
  file_check_of a b = is_kill_switch_active a.file_check a.file_exists b.kill_switch_cache

  abbrev pub file_checked : GateAnswers → Bot D → Bot D
  file_checked a b = record b { kill_switch_cache = (file_check_of a b).1 }

module _ {D : Type 0} (f : Double D) where
  open f use {of_ℤ, mul, quot, lt, round}

  abbrev pub auto_kill_check : GateAnswers → Bot D → Bool × AutoKillSwitch
  auto_kill_check a b =
      check a.kill_check (through_usd f b.risk_manager.current_capital) b.starting_capital
        b.auto_kill

  abbrev pub kill_checked : GateAnswers → Bot D → Bot D
  kill_checked a b = record (after_status a.status (file_checked a b)) {
    auto_kill = (auto_kill_check a b).1;
  }

  unfoldable pub check_safety_gates : GateAnswers → Bot D → Bool × Bot D
  check_safety_gates a b =
      if (file_check_of a b).0
      then (false, stop (file_checked a b))
      else if (auto_kill_check a b).0
      then (false, stop (kill_checked a b))
      else (true, kill_checked a b)

  -- Up to the first wait: whether the tick goes on.
  unfoldable pub begin_tick : GateAnswers → Bot D → Bool × Bot D
  begin_tick a b =
      let (clear, b') = check_safety_gates a b in
      if clear && is_idle b'.tick_state
      then (true, record b' { tick_state = generating })
      else (false, b')
