-- ===== src/Integration/ArbBot/Trade.antt =====
-- arb_bot.service.ts: `executeReal`: the trade, and the sync of the balances after it.
pub mod Cases
pub mod Outcomes
use internship_project_peanu.Prelude.{
  ℕ, ◌+◌, Bool, true, false, not, ◌&&◌, Option, none, some, List, [], ◌∷◌, String, length,
  if◌then◌else◌,
}
use internship_project_peanu.Prelude.Int.{ℤ, pos, ◌+ℤ◌, ◌*ℤ◌, ◌/ℤ◌, ltb_ℤ}
use internship_project_peanu.Prelude.Result.{Error, Result, ok, err}
use internship_project_peanu.Prelude.Double.{Double}
use internship_project_peanu.Prelude.Dict
use internship_project_peanu.Core.{price_scale}
use internship_project_peanu.Inventory.Tracker.{binance, wallet, get_available}
use internship_project_peanu.Inventory.Rebalancer.{check_all}
use internship_project_peanu.Inventory.Pnl.{ArbRecord, append_trade}
use internship_project_peanu.Exchange.OrderBook.{OrderBook}
use internship_project_peanu.Strategy.Signal.{Signal}
use internship_project_peanu.Strategy.Generator.{Market, generate, peek}
use internship_project_peanu.Strategy.Scorer.{score, apply_decay, record_result}
use internship_project_peanu.Safety.Check.{
  RiskCheckResult, Reason, all_clear, trade_exceeds_max, trade_exceeds_capital_pct,
  expected_loss_exceeds_limit, daily_loss_limit_reached, drawdown_exceeds_limit,
  consecutive_loss_limit, hourly_trade_limit, absolute_trade_max, absolute_daily_loss,
  below_absolute_min_capital, absolute_hourly_limit, invalid_cex_price, invalid_dex_price,
  spread_too_high, signal_too_old, invalid_trade_size, price_deviates,
}
use internship_project_peanu.Safety.Risk.{
  RiskManager, trade_value, check_pre_trade, record_trade, prune_trade_window,
}
use internship_project_peanu.Safety.Absolute.{absolute_safety_check}
use internship_project_peanu.Safety.KillSwitch.{
  KillSwitchCache, AutoKillSwitch, is_kill_switch_active, check, record_error,
}
use internship_project_peanu.Safety.Validator.{validate_signal}
use internship_project_peanu.Executor.CircuitBreaker.{is_open}
use internship_project_peanu.Executor.Engine.Context.{
  ExecutionContext, Clients, Clock, Request, split_pair,
}
use internship_project_peanu.Executor.Engine.Run.{Execution, is_done, execute}
use internship_project_peanu.Integration.Records.{signal_to_arb_record, execution_to_arb_record}
use internship_project_peanu.Integration.ArbBot.{
  Bot, BotState, idle, generating, executing, GasAnswer, SyncAnswers, shared_generator,
  shared_executor, shared_planner, stop, estimate_gas_cost_usd, min_profit_buffer, sync_balances,
  balances_match,
}
use internship_project_peanu.Integration.ArbBot.Flight.{
  Flight, GateAnswers, DecideAnswers, TradeAnswers, SettleAnswers, Answers, after_status, finish,
  failed, count_trade, through_usd, deciding, trading, settling,
}

-- `latestBooks.get(pair) ?? book`
abbrev pub or_book : Option OrderBook → OrderBook → OrderBook
or_book none book = book
or_book (some latest) book = latest

module _ {D : Type 0} where
  abbrev pub breaker_checked : TradeAnswers D → Bot D → Bot D
  breaker_checked a b = record b {
    executor = record b.executor {
      circuit_breaker = (is_open a.breaker_check b.executor.circuit_breaker).1;
    };
  }

  abbrev pub profit_or_zero : ExecutionContext D → ℤ
  profit_or_zero ctx = elim ctx.actual_net_pnl_usd [ none ↦ pos 0 | some p ↦ p ]

  -- After the execution, up to the wait for the balances.
  unfoldable pub book_execution :
      TradeAnswers D → String → ExecutionContext D → Bot D → Bot D × Option (Flight D)
  book_execution a pair ctx b =
      let won = is_done ctx.state in
      let (base, quote) = split_pair pair in
      let scored : Bot D = record b { scorer = record_result pair won b.scorer } in
      let counted =
        after_status a.status
          (count_trade a.recorded (profit_or_zero ctx) (execution_to_arb_record ctx) scored) in
      if won
      then (
        counted,
        some (
            settling pair (
              some
                (get_available wallet base b.inventory, get_available binance quote b.inventory))),
      )
      else (scored, some (settling pair none))

  abbrev pub executed :
      TradeAnswers D → String → Result (ExecutionContext D) → Bot D → Bot D × Option (Flight D)
  executed a pair (err e) b = (failed a.failure b, none)
  executed a pair (ok ctx) b = book_execution a pair ctx b

  abbrev pub after_execution :
      TradeAnswers D → String → Execution D → Bot D → List (Request D) × Bot D × Option (Flight D)
  after_execution a pair x b =
      let (b', next) =
        executed a pair x.result
          (record b { executor = x.executor; inventory = x.executor.inventory }) in
      (x.sent, b', next)

  abbrev pub verified : String → Option (ℤ × ℤ) → Bot D → Bot D
  verified pair none b = b
  verified pair (some expected) b =
      if balances_match (split_pair pair).0 (split_pair pair).1 expected b then b else stop b

  abbrev pub synced : SettleAnswers → String → Option (ℤ × ℤ) → Result (Unit {0}) × Bot D → Bot D
  synced a pair expected (err e, b) = failed a.failure b
  synced a pair expected (ok done, b) = finish (verified pair expected b)

  unfoldable pub settle : SettleAnswers → String → Option (ℤ × ℤ) → Bot D → Bot D
  settle a pair expected b = synced a pair expected (sync_balances a.sync b)

module _ {D : Type 0} (f : Double D) where
  open f use {of_ℤ, mul, quot, lt, round}

  -- The signal that is executed is the second one.
  unfoldable pub execute_fresh :
      TradeAnswers D
      → Signal D
      → Signal D
      → String
      → Bot D
      → List (Request D) × Bot D × Option (Flight D)
  execute_fresh a s fresh pair b =
      let b1 = breaker_checked a b in
      let b2 : Bot D = record b1 { circuit_breaker_notified = false } in
      if ltb_ℤ fresh.expected_net_pnl (min_profit_buffer s b)
      then ([], finish b, none)
      else if (is_open a.breaker_check b.executor.circuit_breaker).0
      then ([], finish (record b1 { circuit_breaker_notified = true }), none)
      else after_execution a pair (execute f a.clients a.clock (shared_executor b2) fresh) b2

  abbrev pub peeked :
      TradeAnswers D
      → Signal D
      → String
      → Result (Option (Signal D))
      → Bot D
      → List (Request D) × Bot D × Option (Flight D)
  peeked a s pair (err e) b = ([], failed a.failure b, none)
  peeked a s pair (ok none) b = ([], finish b, none)
  peeked a s pair (ok (some fresh)) b = execute_fresh a s fresh pair b

  unfoldable pub execute_real :
      TradeAnswers D
      → Signal D
      → String
      → OrderBook
      → Bot D
      → List (Request D) × Bot D × Option (Flight D)
  execute_real a s pair book b =
      let m : Market = record a.market { book = or_book (Dict.get pair b.latest_books) book } in
      let (r, g) = peek f m pair (shared_generator b) in
      peeked a s pair r (record b { generator = g })
