-- ===== src/Executor/Tests.antt =====
-- The theorems of executor/ on concrete runs.
use internship_project_peanu.Prelude.{
  ℕ, ◌≡◌, ◌≢◌, refl, true, none, some, List, [], ◌∷◌, String, All, arith, str_eq, ap, sym,
}
use internship_project_peanu.Prelude.Dict
use mathlib.Core.Bool.{true≢false}
use internship_project_peanu.Executor.CircuitBreaker.{CircuitBreaker, is_open}
use internship_project_peanu.Executor.CircuitBreaker.Behaviour
use internship_project_peanu.Executor.CircuitBreaker.Behaviour.{
  Blocks, TrippedSince, fail_all, times, run-Blocks, record_failure_trips, fail_all_below_threshold,
  is_open_recovers, is_open-time_until_reset_ms,
}
use internship_project_peanu.Executor.Replay.{ReplayProtection}
use internship_project_peanu.Executor.Replay.Window
use internship_project_peanu.Executor.Replay.Window.{is_duplicate_exact, is_duplicate_unmarked}

abbrev closed : CircuitBreaker
closed = record {
  failure_threshold = 3;
  window_ms = 300_000;
  cooldown_ms = 600_000;
  failures = [];
  tripped_at = none;
}

abbrev tripped : CircuitBreaker
tripped = record closed { tripped_at = some 1_000; failures = 900 ∷ [] }

abbrev calls : List Behaviour.Call
calls =
    Behaviour.check 2_000
    ∷ Behaviour.failure 3_000 3_001
    ∷ Behaviour.success
    ∷ Behaviour.check 600_000
    ∷ []

run-Blocks_example :
    All Blocks (Behaviour.run calls tripped).0 × TrippedSince 1_000 (Behaviour.run calls tripped).1
run-Blocks_example =
    run-Blocks 1_000 calls tripped (1_000, refl, ground arith)
      (ground arith, (ground arith, (tt, (ground arith, tt))))

abbrev two_failures : List (ℕ × ℕ)
two_failures = (1_000, 1_000) ∷ (2_000, 2_001) ∷ []

still_open : (is_open 1_500 tripped).0 ≡ true
unfolding is_open
still_open = refl

abbrev protection : ReplayProtection
protection = record { ttl_ms = 60_000; executed = ("old", 500) ∷ [] }

abbrev between : List Window.Call
between = Window.check 20_000 "a" ∷ Window.mark 30_000 "b" ∷ []

b_differs : ◌≢◌ {A = String} "b" "a"
b_differs same = true≢false (sym (ap (str_eq "a") same))

known : Window.IsMap protection
unfolding Dict.get
known = (refl, tt)

absent : Dict.get "a" protection.executed ≡ none
unfolding Dict.get
absent = refl
