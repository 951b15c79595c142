-- ===== src/Integration/ArbBot/Flight.antt =====
-- arb_bot.service.ts: what a `tick` waits for, where it is cut. It waits for the decision, which goes
-- from the gas price to the risk checks; for the trade, from the second look at the prices to the
-- bookkeeping; and for the sync afterwards. A segment's own waits (for quotes, orders, receipts) do
-- not interleave with other handlers. Logs and messages are left out.
use internship_project_peanu.Prelude.{ℕ, ◌+◌, Bool, Option, String, if◌then◌else◌}
use internship_project_peanu.Prelude.Int.{ℤ, pos, ◌+ℤ◌, ltb_ℤ}
use internship_project_peanu.Prelude.Double.{Double}
use internship_project_peanu.Core.{price_scale}
use internship_project_peanu.Inventory.Pnl.{ArbRecord, append_trade}
use internship_project_peanu.Exchange.OrderBook.{OrderBook}
use internship_project_peanu.Strategy.Signal.{Signal}
use internship_project_peanu.Strategy.Generator.{Market}
use internship_project_peanu.Safety.Risk.{record_trade, prune_trade_window}
use internship_project_peanu.Safety.KillSwitch.{record_error}
use internship_project_peanu.Executor.Engine.Context.{Clients, Clock}
use internship_project_peanu.Integration.ArbBot.{Bot, idle, GasAnswer, SyncAnswers}

-- What a tick waits for.
pub data Flight (D : Type 0) : Type 0 where
  deciding : String → OrderBook → Flight D
  trading : Signal D → String → OrderBook → Flight D
  -- with the balances that are expected, after a trade that was done
  settling : String → Option (ℤ × ℤ) → Flight D

-- Readings of the clock, and what the outside answers, for each segment.
pub record GateAnswers : Type 0 where
  pub file_check : ℕ
  pub file_exists : Bool
  pub status : ℕ
  pub kill_check : ℕ

pub record DecideAnswers : Type 0 where
  pub gas : GasAnswer
  pub market : Market
  pub validity : ℕ
  pub decay : ℕ
  pub risk_check : ℕ
  pub status : ℕ
  pub recorded : ℕ

pub record TradeAnswers (D : Type 0) : Type 0 where
  pub market : Market
  pub breaker_check : ℕ
  pub clients : Clients D
  pub clock : Clock
  pub recorded : ℕ
  pub status : ℕ
  pub failure : ℕ

pub record SettleAnswers : Type 0 where
  pub sync : SyncAnswers
  pub failure : ℕ

pub record Answers (D : Type 0) : Type 0 where
  pub decide : DecideAnswers
  pub trade : TradeAnswers D
  pub settle : SettleAnswers

module _ {D : Type 0} where
  -- `status` prunes the window of trades.
  abbrev pub after_status : ℕ → Bot D → Bot D
  after_status now b = record b { risk_manager = prune_trade_window now b.risk_manager }

  -- The `finally` of `tick`, and its `catch` while the state is executing.
  abbrev pub finish : Bot D → Bot D
  finish b = record b { tick_state = idle }

  abbrev pub failed : ℕ → Bot D → Bot D
  failed now b = finish (record b { auto_kill = record_error now b.auto_kill })

  -- A trade's profit enters the risk manager, the ledger and the day's figures.
  unfoldable pub count_trade : ℕ → ℤ → ArbRecord → Bot D → Bot D
  count_trade now pnl entry b = record b {
    risk_manager = record_trade now pnl b.risk_manager;
    pnl = append_trade entry b.pnl;
    daily_trade_count = b.daily_trade_count + 1;
    daily_net_pnl = b.daily_net_pnl +ℤ pnl;
    daily_wins = if ltb_ℤ (pos 0) pnl then b.daily_wins + 1 else b.daily_wins;
  }

module _ {D : Type 0} (f : Double D) where
  open f use {of_ℤ, mul, quot, lt, round}

  -- `BigInt(Math.round((Number(x) / scale) * scale))`
  abbrev pub through_usd : ℤ → ℤ
  through_usd x = round (mul (quot (of_ℤ x) (of_ℤ price_scale)) (of_ℤ price_scale))
