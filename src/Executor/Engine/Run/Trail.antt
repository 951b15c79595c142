-- ===== src/Executor/Engine/Run/Trail.antt =====
-- engine.service.ts: the state machine that an execution's context runs through.
use internship_project_peanu.Prelude.{not, if_elim, Option, none, some, List, [], ◌∷◌, ◌++◌}
use internship_project_peanu.Prelude.Int.{ℤ, pos, ◌*ℤ◌, ltb_ℤ}
use internship_project_peanu.Prelude.Result.{Error, Result, ok, err, div}
use internship_project_peanu.Prelude.Double.{Double}
use internship_project_peanu.Strategy.Signal.{Signal}
use internship_project_peanu.Executor.Engine.Context.{
  Executor, ExecutorState, idle, validating, leg1_pending, leg1_filled, leg2_pending, done, failed,
  unwinding, ExecutionContext, LegVenue, cex, dex, LegResult, Failure, Request, Clients, Clock,
  enter, make_context, fail, with_timeout,
}
use internship_project_peanu.Executor.Engine.Legs.{execute_cex_leg, execute_dex_leg}
use internship_project_peanu.Executor.Engine.Run.{
  Outcome, unless_thrown, complete, unwound, after_leg2, leg2_dex, leg2_cex, checked_fill,
  after_leg1_cex, execute_cex_first, after_leg1_dex, execute_dex_first, run_legs, execute, settled,
  starting, replay_checked,
}
use internship_project_peanu.Executor.Engine.Run.Cases.{validated, execute_elim}

-- The transitions of the code.
pub data Step : ExecutorState → ExecutorState → Type 0 where
  refuse_idle : Step idle failed
  validate : Step idle validating
  refuse_validating : Step validating failed
  start_leg1 : Step validating leg1_pending
  leg1_fails : Step leg1_pending failed
  leg1_fills : Step leg1_pending leg1_filled
  start_leg2 : Step leg1_filled leg2_pending
  leg2_fills : Step leg2_pending done
  leg2_fails : Step leg2_pending unwinding
  give_up : Step unwinding failed

-- The states visited, from idle to the one reached.
pub data Trail : List ExecutorState → ExecutorState → Type 0 where
  begin : Trail (idle ∷ []) idle
  onward :
      {visited : List ExecutorState} {s t : ExecutorState}
      → Trail visited s
      → Step s t
      → Trail (visited ++ t ∷ []) t

module _ {D : Type 0} where
  abbrev pub IsTrail : ExecutionContext D → Type 0
  IsTrail ctx = Trail ctx.visited ctx.state

  -- A context that is returned has come its way by transitions.
  abbrev pub Trailed : Result (ExecutionContext D) → Type 0
  Trailed (ok ctx) = IsTrail ctx
  Trailed (err x) = Unit

  abbrev At : ExecutorState → ExecutionContext D → Type 0
  At s ctx = Trail ctx.visited s

  fail-Trailed :
      (s : ExecutorState) (failure : Failure) (ctx : ExecutionContext D)
      → Step s failed
      → At s ctx
      → IsTrail (fail failure ctx)
  unfolding fail
  fail-Trailed s failure ctx step h = onward h step

  thrown-Trailed :
      (ctx : ExecutionContext D) (x : Option Error) → IsTrail ctx → Trailed (unless_thrown ctx x)
  thrown-Trailed ctx none h = h
  thrown-Trailed ctx (some x) h = tt

  abbrev OutcomeTrailed : Outcome D → Type 0
  OutcomeTrailed o = Trailed o.result

  complete-Trailed :
      (e : Executor) (sent : List (Request D)) (leg : LegResult) (ctx : ExecutionContext D)
      → At leg2_pending ctx
      → OutcomeTrailed (complete e sent leg ctx)
  unfolding complete
  complete-Trailed e sent leg ctx h = thrown-Trailed _ _ (onward h leg2_fills)

module _ {D : Type 0} (f : Double D) (e : Executor) (c : Clients D) (clock : Clock) where
  unwound-Trailed :
      (sent : List (Request D)) (failure : Failure) (ctx : ExecutionContext D)
      → At leg2_pending ctx
      → OutcomeTrailed (unwound f e c clock sent failure ctx)
  unfolding unwound
  unwound-Trailed sent failure ctx h =
      fail-Trailed unwinding failure (enter unwinding ctx) give_up (onward h leg2_fails)

  leg2-Trailed :
      (venue : LegVenue) (sent : List (Request D)) (ctx : ExecutionContext D)
      (answer : Option LegResult)
      → At leg2_pending ctx
      → OutcomeTrailed (after_leg2 f e c clock venue sent ctx answer)
  leg2-Trailed venue sent ctx none h = unwound-Trailed sent _ ctx h
  leg2-Trailed venue sent ctx (some leg) h =
      if_elim OutcomeTrailed (not leg.success) _ _ (λ _. unwound-Trailed sent _ ctx h)
        (λ _. complete-Trailed e sent leg ctx h)

  fill-Trailed :
      (sent : List (Request D)) (leg : LegResult) (ctx : ExecutionContext D) (ratio : Result ℤ)
      → At leg1_pending ctx
      → OutcomeTrailed (checked_fill f e c clock sent leg ctx ratio)
  unfolding leg2_dex
  fill-Trailed sent leg ctx (err x) h = tt
  fill-Trailed sent leg ctx (ok ratio) h =
      if_elim OutcomeTrailed (ltb_ℤ ratio e.min_fill_scaled) _ _
        (λ _. fail-Trailed leg1_pending _ ctx leg1_fails h)
        (λ _. leg2-Trailed dex _ _ _ (onward (onward h leg1_fills) start_leg2))

  leg1_cex-Trailed :
      (sent : List (Request D)) (ctx : ExecutionContext D) (answer : Option LegResult)
      → At leg1_pending ctx
      → OutcomeTrailed (after_leg1_cex f e c clock sent ctx answer)
  leg1_cex-Trailed sent ctx none h = fail-Trailed leg1_pending _ ctx leg1_fails h
  leg1_cex-Trailed sent ctx (some leg) h =
      if_elim OutcomeTrailed (not leg.success) _ _
        (λ _. fail-Trailed leg1_pending _ ctx leg1_fails h)
        (λ _. fill-Trailed sent leg ctx (div (leg.filled *ℤ pos 10_000) ctx.signal.size) h)

  leg1_dex-Trailed :
      (sent : List (Request D)) (ctx : ExecutionContext D) (answer : Option LegResult)
      → At leg1_pending ctx
      → OutcomeTrailed (after_leg1_dex f e c clock sent ctx answer)
  unfolding leg2_cex
  leg1_dex-Trailed sent ctx none h = fail-Trailed leg1_pending _ ctx leg1_fails h
  leg1_dex-Trailed sent ctx (some leg) h =
      if_elim OutcomeTrailed (not leg.success) _ _
        (λ _. fail-Trailed leg1_pending _ ctx leg1_fails h)
        (λ _. leg2-Trailed cex _ _ _ (onward (onward h leg1_fills) start_leg2))

  run_legs-Trailed :
      (ctx : ExecutionContext D) → At validating ctx → OutcomeTrailed (run_legs f c clock e ctx)
  unfolding run_legs execute_cex_first execute_dex_first
  run_legs-Trailed ctx h =
      if_elim OutcomeTrailed e.use_flashbots _ _
        (λ _.
          let leg = execute_dex_leg e c clock.dex_leg ctx.signal ctx.signal.size in
          leg1_dex-Trailed leg.0 (starting dex ctx) (with_timeout clock.leg1_late leg.1)
            (onward h start_leg1))
        (λ _.
          let leg = execute_cex_leg f e c ctx.signal ctx.signal.size in
          leg1_cex-Trailed leg.0 (starting cex ctx) (with_timeout clock.leg1_late leg.1)
            (onward h start_leg1))

module _ {D : Type 0} (f : Double D) (c : Clients D) (clock : Clock) where
  settled-Trailed :
      (e : Executor) (signal : Signal D) (sent : List (Request D))
      (result : Result (ExecutionContext D))
      → Trailed result
      → Trailed (settled e clock signal sent result).result
  settled-Trailed e signal sent (err x) h = tt
  settled-Trailed e signal sent (ok ctx) h = h

  -- The states that the context of an execution goes through are those of the state machine, one
  -- transition after another from idle: validation before the first leg, the second leg only after
  -- the first is filled, unwinding only from a pending second leg and always towards failure.
  pub execute-Trailed :
      (e : Executor) (signal : Signal D) → Trailed (execute f c clock e signal).result
  unfolding make_context fail
  execute-Trailed e signal =
      execute_elim f c clock e signal (λ x. Trailed x.result) (λ _. onward begin refuse_idle)
        (λ _ _. onward begin refuse_idle)
        (λ _ _ failure. onward (onward begin validate) refuse_validating)
        (λ _ _ _ _. settled-Trailed _ signal _ _ (
          run_legs-Trailed f (replay_checked f c clock signal e) c clock (validated clock signal)
            (onward begin validate)))
