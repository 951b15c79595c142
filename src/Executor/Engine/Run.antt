-- ===== src/Executor/Engine/Run.antt =====
-- engine.service.ts: `executeCexFirst`, `executeDexFirst`, `execute`.
pub mod Cases
pub mod Ending
pub mod Trail
pub mod Once
pub mod Effects
use internship_project_peanu.Prelude.{
  ℕ, Bool, true, false, not, ◌&&◌, Option, none, some, List, [], ◌∷◌, ◌++◌, leb, if◌then◌else◌,
}
use internship_project_peanu.Prelude.Int.{ℤ, pos, ◌*ℤ◌, ◌/ℤ◌, ltb_ℤ}
use internship_project_peanu.Prelude.Result.{Error, Result, ok, err, div}
use internship_project_peanu.Prelude.Double.{Double}
use internship_project_peanu.Core.{price_scale}
use internship_project_peanu.Strategy.Signal.{Signal, Direction, is_valid, is_buy_dex}
use internship_project_peanu.Inventory.Tracker.{
  InventoryTracker, CanExecuteResult, Venue, binance, wallet, can_execute,
}
use internship_project_peanu.Executor.CircuitBreaker.{is_open, record_success, record_failure}
use internship_project_peanu.Executor.Replay.{is_duplicate, mark_executed}
use internship_project_peanu.Executor.Engine.Context.{
  Executor, ExecutorState, idle, validating, leg1_pending, leg1_filled, leg2_pending, done, failed,
  unwinding, ExecutionContext, LegVenue, cex, dex, LegResult, Failure, circuit_breaker_open,
  duplicate_signal, signal_invalid, insufficient_inventory, leg1_timeout, leg1_rejected,
  partial_fill, leg2_timeout, leg2_failed, Request, Clients, Clock, enter, make_context, fail,
  with_timeout, split_pair,
}
use internship_project_peanu.Executor.Engine.Legs.{execute_cex_leg, execute_dex_leg}
use internship_project_peanu.Executor.Engine.Unwind.{unwind}
use internship_project_peanu.Executor.Engine.Booking.{record_trades, calculate_pnl}

-- What running both legs sent, the balances after it, and the context or the error thrown.
pub record Outcome (D : Type 0) : Type 0 where
  pub sent : List (Request D)
  pub inventory : InventoryTracker
  pub result : Result (ExecutionContext D)

module _ {D : Type 0} where
  abbrev pub failed_outcome :
      List (Request D) → InventoryTracker → Failure → ExecutionContext D → Outcome D
  failed_outcome sent t failure ctx = record {
    sent = sent;
    inventory = t;
    result = ok (fail failure ctx);
  }

  -- `ctx` is returned, or the error of the booking is thrown.
  abbrev pub unless_thrown : ExecutionContext D → Option Error → Result (ExecutionContext D)
  unless_thrown ctx none = ok ctx
  unless_thrown ctx (some e) = err e

  -- Both legs are filled.
  unfoldable pub complete : Executor → List (Request D) → LegResult → ExecutionContext D → Outcome D
  complete e sent leg2 ctx =
      let filled : ExecutionContext D = record ctx {
        leg2_fill_price = some leg2.price;
        leg2_fill_size = some leg2.filled;
      } in
      let closed : ExecutionContext D =
        enter done (record filled { actual_net_pnl_usd = some (calculate_pnl filled) }) in
      let (inventory, thrown) = record_trades e.combined_fee_rate_bps closed e.inventory in
      record { sent = sent; inventory = inventory; result = unless_thrown closed thrown }

  abbrev pub starting : LegVenue → ExecutionContext D → ExecutionContext D
  starting venue ctx = record (enter leg1_pending ctx) { leg1_venue = some venue }

  abbrev pub leg1_done : LegResult → ExecutionContext D → ExecutionContext D
  leg1_done leg ctx =
      enter leg1_filled
        (record ctx { leg1_fill_price = some leg.price; leg1_fill_size = some leg.filled })

module _ {D : Type 0} (f : Double D) (e : Executor) (c : Clients D) (clock : Clock) where
  -- The second leg did not fill: the first is unwound, and a failure of that is only logged.
  unfoldable pub unwound : List (Request D) → Failure → ExecutionContext D → Outcome D
  unwound sent failure ctx =
      let ctx' = enter unwinding ctx in
      failed_outcome (sent ++ (unwind f e c clock.unwinding ctx').0) e.inventory failure ctx'

  -- After the second leg, at `venue`.
  abbrev pub after_leg2 :
      LegVenue → List (Request D) → ExecutionContext D → Option LegResult → Outcome D
  after_leg2 venue sent ctx none = unwound sent (leg2_timeout venue) ctx
  after_leg2 venue sent ctx (some leg) =
      if not leg.success
      then unwound sent (leg2_failed venue leg.error) ctx
      else complete e sent leg ctx

  unfoldable pub leg2_dex : List (Request D) → LegResult → ExecutionContext D → Outcome D
  leg2_dex sent leg1 ctx =
      let pending : ExecutionContext D = record (enter leg2_pending (leg1_done leg1 ctx)) {
        leg2_venue = some dex;
      } in
      let (sent2, r) = execute_dex_leg e c clock.dex_leg ctx.signal leg1.filled in
      after_leg2 dex (sent ++ sent2) pending (with_timeout clock.leg2_late r)

  unfoldable pub leg2_cex : List (Request D) → LegResult → ExecutionContext D → Outcome D
  leg2_cex sent leg1 ctx =
      let pending : ExecutionContext D = record (enter leg2_pending (leg1_done leg1 ctx)) {
        leg2_venue = some cex;
      } in
      let (sent2, r) = execute_cex_leg f e c ctx.signal leg1.filled in
      after_leg2 cex (sent ++ sent2) pending (with_timeout clock.leg2_late r)

  -- The fill ratio throws for a size of zero.
  abbrev pub checked_fill : List (Request D) → LegResult → ExecutionContext D → Result ℤ → Outcome D
  checked_fill sent leg1 ctx (err x) = record {
    sent = sent;
    inventory = e.inventory;
    result = err x;
  }
  checked_fill sent leg1 ctx (ok ratio) =
      if ltb_ℤ ratio e.min_fill_scaled
      then failed_outcome sent e.inventory partial_fill ctx
      else leg2_dex sent leg1 ctx

  abbrev pub after_leg1_cex : List (Request D) → ExecutionContext D → Option LegResult → Outcome D
  after_leg1_cex sent ctx none = failed_outcome sent e.inventory (leg1_timeout cex) ctx
  after_leg1_cex sent ctx (some leg) =
      if not leg.success
      then failed_outcome sent e.inventory (leg1_rejected cex leg.error) ctx
      else checked_fill sent leg ctx (div (leg.filled *ℤ pos 10_000) ctx.signal.size)

  unfoldable pub execute_cex_first : ExecutionContext D → Outcome D
  execute_cex_first ctx =
      let (sent, r) = execute_cex_leg f e c ctx.signal ctx.signal.size in
      after_leg1_cex sent (starting cex ctx) (with_timeout clock.leg1_late r)

  abbrev pub after_leg1_dex : List (Request D) → ExecutionContext D → Option LegResult → Outcome D
  after_leg1_dex sent ctx none = failed_outcome sent e.inventory (leg1_timeout dex) ctx
  after_leg1_dex sent ctx (some leg) =
      if not leg.success
      then failed_outcome sent e.inventory (leg1_rejected dex leg.error) ctx
      else leg2_cex sent leg ctx

  unfoldable pub execute_dex_first : ExecutionContext D → Outcome D
  execute_dex_first ctx =
      let (sent, r) = execute_dex_leg e c clock.dex_leg ctx.signal ctx.signal.size in
      after_leg1_dex sent (starting dex ctx) (with_timeout clock.leg1_late r)

-- What a call of `execute` leaves: the executor, the requests it sent, and its result.
pub record Execution (D : Type 0) : Type 0 where
  pub executor : Executor
  pub sent : List (Request D)
  pub result : Result (ExecutionContext D)

abbrev pub is_done : ExecutorState → Bool
is_done done = true
is_done idle = false
is_done validating = false
is_done leg1_pending = false
is_done leg1_filled = false
is_done leg2_pending = false
is_done failed = false
is_done unwinding = false

module _ {D : Type 0} where
  abbrev pub refused : Executor → Failure → ExecutionContext D → Execution D
  refused e failure ctx = record { executor = e; sent = []; result = ok (fail failure ctx) }

  -- The bookkeeping of `execute` after the legs, which a throw skips.
  abbrev pub settled :
      Executor → Clock → Signal D → List (Request D) → Result (ExecutionContext D) → Execution D
  settled e clock signal sent (err x) = record { executor = e; sent = sent; result = err x }
  settled e clock signal sent (ok ctx) = record {
    executor = record e {
      replay_protection = mark_executed clock.marked signal.signal_id e.replay_protection;
      circuit_breaker =
          if is_done ctx.state
          then record_success e.circuit_breaker
          else record_failure clock.failure clock.trip e.circuit_breaker;
    };
    sent = sent;
    result = ok (record ctx { finished_at = some clock.finished });
  }

module _ {D : Type 0} (f : Double D) (c : Clients D) (clock : Clock) where
  unfoldable pub run_legs : Executor → ExecutionContext D → Outcome D
  run_legs e ctx =
      if e.use_flashbots
      then execute_dex_first f e c clock ctx
      else execute_cex_first f e c clock ctx

  -- The pre-flight check of the balances for both legs.
  unfoldable pub inventory_check : Executor → Signal D → CanExecuteResult
  inventory_check e signal =
      let (base, quote) = split_pair signal.pair in
      let quote_needed = (signal.size *ℤ signal.cex_price) /ℤ price_scale in
      let buy_dex = is_buy_dex signal.direction in
      can_execute (if buy_dex then wallet else binance) quote quote_needed
        (if buy_dex then binance else wallet) base signal.size e.inventory

  -- From the validation on.
  unfoldable pub execute_new : Executor → Signal D → Execution D
  execute_new e signal =
      let ctx = enter validating (make_context clock.started signal) in
      let inventory_ok = inventory_check e signal in
      let outcome = run_legs e ctx in
      if not (is_valid clock.validity_check signal)
      then refused e
          (signal_invalid (leb signal.expiry clock.expiry_check) (not signal.inventory_ok)
            (not signal.within_limits))
          ctx
      else if not inventory_ok.can_execute
      then refused e (insufficient_inventory inventory_ok.reason) ctx
      else settled (record e { inventory = outcome.inventory }) clock signal outcome.sent
          outcome.result

  -- The executor after `isOpen`, and after `isDuplicate` as well.
  abbrev pub breaker_checked : Executor → Executor
  breaker_checked e = record e {
    circuit_breaker = (is_open clock.breaker_check e.circuit_breaker).1;
  }

  abbrev pub replay_checked : Signal D → Executor → Executor
  replay_checked signal e = record (breaker_checked e) {
    replay_protection = (is_duplicate clock.duplicate_check signal.signal_id e.replay_protection).1;
  }

  unfoldable pub execute : Executor → Signal D → Execution D
  execute e signal =
      let ctx = make_context clock.started signal in
      if (is_open clock.breaker_check e.circuit_breaker).0
      then refused (breaker_checked e) circuit_breaker_open ctx
      else if (is_duplicate clock.duplicate_check signal.signal_id e.replay_protection).0
      then refused (replay_checked signal e) duplicate_signal ctx
      else execute_new (replay_checked signal e) signal
