-- ===== src/Integration/ArbBot/Decide.antt =====
-- arb_bot.service.ts: `generateAndFilterSignal`, `runRiskChecks` and `runDryRun`: a tick's decision.
pub mod Cases
pub mod Guarded
use internship_project_peanu.Prelude.{
  ℕ, ◌+◌, Bool, true, false, not, ◌&&◌, Option, none, some, List, [], ◌∷◌, String, length,
  if◌then◌else◌,
}
use internship_project_peanu.Prelude.Int.{ℤ, pos, ◌+ℤ◌, ◌*ℤ◌, ◌/ℤ◌, ltb_ℤ}
use internship_project_peanu.Prelude.Result.{Error, Result, ok, err}
use internship_project_peanu.Prelude.Double.{Double}
use internship_project_peanu.Prelude.Dict
use internship_project_peanu.Core.{price_scale}
use internship_project_peanu.Inventory.Tracker.{binance, wallet, get_available}
use internship_project_peanu.Inventory.Rebalancer.{check_all}
use internship_project_peanu.Inventory.Pnl.{ArbRecord, append_trade}
use internship_project_peanu.Exchange.OrderBook.{OrderBook}
use internship_project_peanu.Strategy.Signal.{Signal}
use internship_project_peanu.Strategy.Generator.{SignalGenerator, Market, generate, peek}
use internship_project_peanu.Strategy.Scorer.{score, apply_decay, record_result}
use internship_project_peanu.Safety.Check.{
  RiskCheckResult, Reason, all_clear, trade_exceeds_max, trade_exceeds_capital_pct,
  expected_loss_exceeds_limit, daily_loss_limit_reached, drawdown_exceeds_limit,
  consecutive_loss_limit, hourly_trade_limit, absolute_trade_max, absolute_daily_loss,
  below_absolute_min_capital, absolute_hourly_limit, invalid_cex_price, invalid_dex_price,
  spread_too_high, signal_too_old, invalid_trade_size, price_deviates,
}
use internship_project_peanu.Safety.Risk.{
  RiskManager, trade_value, check_pre_trade, record_trade, prune_trade_window,
}
use internship_project_peanu.Safety.Absolute.{absolute_safety_check}
use internship_project_peanu.Safety.KillSwitch.{
  KillSwitchCache, AutoKillSwitch, is_kill_switch_active, check, record_error,
}
use internship_project_peanu.Safety.Validator.{validate_signal}
use internship_project_peanu.Executor.CircuitBreaker.{is_open}
use internship_project_peanu.Executor.Engine.Context.{
  ExecutionContext, Clients, Clock, Request, split_pair,
}
use internship_project_peanu.Executor.Engine.Run.{Execution, is_done, execute}
use internship_project_peanu.Integration.Records.{signal_to_arb_record, execution_to_arb_record}
use internship_project_peanu.Integration.ArbBot.{
  Bot, BotState, idle, generating, executing, GasAnswer, SyncAnswers, shared_generator,
  shared_executor, shared_planner, stop, estimate_gas_cost_usd, min_profit_buffer, sync_balances,
  balances_match,
}
use internship_project_peanu.Integration.ArbBot.Flight.{
  Flight, GateAnswers, DecideAnswers, TradeAnswers, SettleAnswers, Answers, after_status, finish,
  failed, count_trade, through_usd, deciding, trading, settling,
}

-- `reason.includes('Daily loss limit')`, on the messages of the risk manager
abbrev pub is_daily_loss : Reason → Bool
is_daily_loss daily_loss_limit_reached = true
is_daily_loss all_clear = false
is_daily_loss trade_exceeds_max = false
is_daily_loss trade_exceeds_capital_pct = false
is_daily_loss expected_loss_exceeds_limit = false
is_daily_loss drawdown_exceeds_limit = false
is_daily_loss consecutive_loss_limit = false
is_daily_loss hourly_trade_limit = false
is_daily_loss absolute_trade_max = false
is_daily_loss absolute_daily_loss = false
is_daily_loss below_absolute_min_capital = false
is_daily_loss absolute_hourly_limit = false
is_daily_loss invalid_cex_price = false
is_daily_loss invalid_dex_price = false
is_daily_loss spread_too_high = false
is_daily_loss signal_too_old = false
is_daily_loss invalid_trade_size = false
is_daily_loss price_deviates = false

module _ {D : Type 0} where
  abbrev pub with_gas_cost : GasAnswer → Bot D → Bot D
  with_gas_cost a b =
      let (cost, cache) = estimate_gas_cost_usd a b in
      record b { gas_cache = cache; fees = record b.fees { gas_cost = cost } }

  unfoldable pub run_dry_run : ℕ → Signal D → Bot D → Bot D
  run_dry_run now s b = count_trade now s.expected_net_pnl (signal_to_arb_record s) b

module _ {D : Type 0} (f : Double D) where
  open f use {of_ℤ, mul, quot, lt, round}

  -- A generated signal against the validator, the least score and the least profit.
  abbrev pub validated : DecideAnswers → Signal D → Bot D → Bot D
  validated a s b = record b { pre_trade = (validate_signal f a.validity s b.pre_trade).1 }

  abbrev pub decayed_score : DecideAnswers → Signal D → Bot D → D
  decayed_score a s b =
      apply_decay f a.decay s (some (score f s (check_all f (shared_planner b)) b.scorer))

  unfoldable pub screen : DecideAnswers → Signal D → Bot D → Option (Signal D) × Bot D
  screen a s b =
      if not (validate_signal f a.validity s b.pre_trade).0.allowed
      then (none, validated a s b)
      else if lt (decayed_score a s b) b.config.min_score
      then (none, validated a s b)
      else if ltb_ℤ s.expected_net_pnl (min_profit_buffer s b)
      then (none, validated a s b)
      else (some s, validated a s b)

  abbrev pub screened :
      DecideAnswers → Result (Option (Signal D)) → Bot D → Result (Option (Signal D)) × Bot D
  screened a (err e) b = (err e, b)
  screened a (ok none) b = (ok none, b)
  screened a (ok (some s)) b = let (o, b') = screen a s b in (ok o, b')

  abbrev pub asked :
      DecideAnswers → String → OrderBook → Bot D → Result (Option (Signal D)) × SignalGenerator D
  asked a pair book b =
      generate f (record a.market { book = book }) pair (shared_generator (with_gas_cost a.gas b))

  abbrev pub after_generate : DecideAnswers → String → OrderBook → Bot D → Bot D
  after_generate a pair book b = record (with_gas_cost a.gas b) {
    generator = (asked a pair book b).1;
  }

  unfoldable pub generate_and_filter_signal :
      DecideAnswers → String → OrderBook → Bot D → Result (Option (Signal D)) × Bot D
  generate_and_filter_signal a pair book b =
      screened a (asked a pair book b).0 (after_generate a pair book b)

  abbrev pub risk_check_of : DecideAnswers → Signal D → Bot D → RiskCheckResult × RiskManager D
  risk_check_of a s b = check_pre_trade f a.risk_check s b.risk_manager

  abbrev pub risk_checked : DecideAnswers → Signal D → Bot D → Bot D
  risk_checked a s b = record b { risk_manager = (risk_check_of a s b).1 }

  abbrev pub absolute_check : DecideAnswers → Signal D → Bot D → RiskCheckResult
  absolute_check a s b =
      let m = prune_trade_window a.status (risk_check_of a s b).1 in
      absolute_safety_check (trade_value s) (through_usd f m.daily_pnl)
        (through_usd f m.current_capital) (length m.trade_timestamps)

  unfoldable pub run_risk_checks : DecideAnswers → Signal D → Bot D → Bool × Bot D
  run_risk_checks a s b =
      let first = risk_checked a s b in
      let second = after_status a.status first in
      if not (risk_check_of a s b).0.allowed
      then (if is_daily_loss (risk_check_of a s b).0.reason && not b.daily_loss_alerted
          then (false, record second { daily_loss_alerted = true })
          else (false, first))
      else ((absolute_check a s b).allowed, second)

  -- A signal that passed the filter: the risk checks, and the dry run or the trade.
  unfoldable pub proceed :
      DecideAnswers → Signal D → String → OrderBook → Bot D → Bot D × Option (Flight D)
  proceed a s pair book b =
      let (cleared, b') = run_risk_checks a s b in
      if not cleared
      then (finish b', none)
      else if b'.config.simulation_mode
      then (finish (run_dry_run a.recorded s b'), none)
      else (record b' { tick_state = executing }, some (trading s pair book))

  -- An error while the state is still generating is not counted.
  abbrev pub decided :
      DecideAnswers
      → String
      → OrderBook
      → Result (Option (Signal D)) × Bot D
      → Bot D × Option (Flight D)
  decided a pair book (err e, b) = (finish b, none)
  decided a pair book (ok none, b) = (finish b, none)
  decided a pair book (ok (some s), b) = proceed a s pair book b

  unfoldable pub decide : DecideAnswers → String → OrderBook → Bot D → Bot D × Option (Flight D)
  decide a pair book b = decided a pair book (generate_and_filter_signal a pair book b)
