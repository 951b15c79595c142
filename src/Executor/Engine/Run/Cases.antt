-- ===== src/Executor/Engine/Run/Cases.antt =====
-- engine.service.ts: the ways through `execute`, for the proofs about it.
use internship_project_peanu.Prelude.{◌≡◌, refl, Bool, true, false, not, if_elim, arith}
use internship_project_peanu.Prelude.Double.{Double}
use internship_project_peanu.Strategy.Signal.{Signal, is_valid}
use internship_project_peanu.Executor.CircuitBreaker.{is_open}
use internship_project_peanu.Executor.Replay.{is_duplicate}
use internship_project_peanu.Executor.Engine.Context.{
  Executor, ExecutionContext, Failure, Clients, Clock, enter, validating, make_context,
  circuit_breaker_open, duplicate_signal,
}
use internship_project_peanu.Executor.Engine.Run.{
  Execution, Outcome, run_legs, inventory_check, execute_new, execute, refused, settled,
  breaker_checked, replay_checked,
}

-- The context of an execution that has got to its validation.
abbrev pub validated : {D : Type 0} → Clock → Signal D → ExecutionContext D
validated clock signal = enter validating (make_context clock.started signal)

not-false : (b : Bool) → not b ≡ false → b ≡ true
not-false true h = refl
not-false false h = ground arith

module _ {D : Type 0} (f : Double D) (c : Clients D) (clock : Clock) (e : Executor)
    (signal : Signal D) where
  abbrev pub ran : Outcome D
  ran = run_legs f c clock (replay_checked f c clock signal e) (validated clock signal)

  -- What the legs' outcome becomes.
  abbrev pub ran_through : Execution D
  ran_through =
      settled (record (replay_checked f c clock signal e) { inventory = ran.inventory }) clock
        signal ran.sent ran.result

  -- A statement about an execution is proved for each refusal, and for the legs under the
  -- conditions that let them run.
  pub execute_elim :
      (P : Execution D → Type 0)
      → ((is_open clock.breaker_check e.circuit_breaker).0 ≡ true
          → P (
              refused
                (breaker_checked f c clock e)
                circuit_breaker_open
                (make_context clock.started signal)))
      → ((is_open clock.breaker_check e.circuit_breaker).0 ≡ false
          → (is_duplicate clock.duplicate_check signal.signal_id e.replay_protection).0 ≡ true
          → P (
              refused
                (replay_checked f c clock signal e)
                duplicate_signal
                (make_context clock.started signal)))
      → ((is_open clock.breaker_check e.circuit_breaker).0 ≡ false
          → (is_duplicate clock.duplicate_check signal.signal_id e.replay_protection).0 ≡ false
          → (failure : Failure)
          → P (refused (replay_checked f c clock signal e) failure (validated clock signal)))
      → ((is_open clock.breaker_check e.circuit_breaker).0 ≡ false
          → (is_duplicate clock.duplicate_check signal.signal_id e.replay_protection).0 ≡ false
          → is_valid clock.validity_check signal ≡ true
          → (inventory_check f c clock e signal).can_execute ≡ true
          → P ran_through)
      → P (execute f c clock e signal)
  unfolding execute execute_new inventory_check
  execute_elim P blocked duplicate other through =
      if_elim P (is_open clock.breaker_check e.circuit_breaker).0 _ _ blocked (λ closed.
        if_elim P (is_duplicate clock.duplicate_check signal.signal_id e.replay_protection).0 _ _
          (duplicate closed)
          (λ fresh.
            if_elim P (not (is_valid clock.validity_check signal)) _ _ (λ _. other closed fresh _)
              (λ valid.
                if_elim P (not (inventory_check f c clock e signal).can_execute) _ _
                  (λ _. other closed fresh _)
                  (λ covered. through closed fresh (not-false _ valid) (not-false _ covered)))))
