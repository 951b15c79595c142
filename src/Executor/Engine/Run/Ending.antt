-- ===== src/Executor/Engine/Run/Ending.antt =====
-- engine.service.ts: how an execution ends, and what it leaves of the balances.
use internship_project_peanu.Prelude.{◌≡◌, none, some, ◌⊎◌}
use internship_project_peanu.Prelude.Result.{Result, ok, err, division_by_zero}
use internship_project_peanu.Prelude.Double.{Double}
use internship_project_peanu.Strategy.Signal.{Signal}
use internship_project_peanu.Inventory.Tracker.{InventoryTracker}
use internship_project_peanu.Executor.Engine.Context.{
  Executor, done, failed, ExecutionContext, Clients, Clock,
}
use internship_project_peanu.Executor.Engine.Booking.{record_trades, calculate_pnl}
use internship_project_peanu.Executor.Engine.Run.{Outcome, Execution}

module _ {D : Type 0} where
  -- How the legs end, from an executor, with the balances `t`.
  abbrev pub Ended : Executor → InventoryTracker → Result (ExecutionContext D) → Type 0
  Ended e t (ok ctx) =
      (ctx.state ≡ done)
        × (ctx.actual_net_pnl_usd ≡ some (calculate_pnl ctx))
        × (record_trades e.combined_fee_rate_bps ctx e.inventory ≡ (t, none))
      ⊎ (ctx.state ≡ failed) × (t ≡ e.inventory)
  Ended e t (err x) =
      (x ≡ division_by_zero) × (t ≡ e.inventory)
      ⊎ ((ctx : ExecutionContext D) × (record_trades e.combined_fee_rate_bps ctx e.inventory
            ≡ (t, some x)))

  abbrev IsEnded : Executor → Outcome D → Type 0
  IsEnded e o = Ended e o.inventory o.result

module _ {D : Type 0} (f : Double D) (c : Clients D) (clock : Clock) where
  abbrev ExecutionEnded : Executor → Execution D → Type 0
  ExecutionEnded e x = Ended e x.executor.inventory x.result
