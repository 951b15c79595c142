-- ===== src/Safety/KillSwitch/Latch.antt =====
-- kill.switch.ts: the switch stays on, what turns it on, and how old a cached answer can be.
use internship_project_peanu.Prelude.{
  ℕ, ◌+◌, ◌*◌, ◌/◌, ◌≤◌, ◌<◌, ◌≡◌, Bool, true, false, List, [], ◌∷◌, length, arith, ◌⊎◌, ◌↔◌,
}
use internship_project_peanu.Prelude.Int.{ℤ, pos, ◌<ℤ◌, pos-*ℤ, pos-/ℤ}
use internship_project_peanu.Safety.KillSwitch.{
  AutoKillSwitch, KillSwitchCache, is_kill_switch_active, record_error, drop_stale, check,
}

-- The calls of the bot.
pub data Call : Type 0 where
  error_at : ℕ → Call
  check_at : ℕ → ℤ → ℤ → Call

abbrev pub step : Call → AutoKillSwitch → AutoKillSwitch
step (error_at now) k = record_error now k
step (check_at now current initial) k = (check now current initial k).1

abbrev pub run : List Call → AutoKillSwitch → AutoKillSwitch
run [] k = k
run (c ∷ cs) k = run cs (step c k)

step-triggered : (c : Call) (k : AutoKillSwitch) → k.triggered ≡ true → (step c k).triggered ≡ true
unfolding record_error check
step-triggered (error_at now) k h = h
step-triggered (check_at now current initial) k h = ground arith

run-triggered :
    (cs : List Call) (k : AutoKillSwitch) → k.triggered ≡ true → (run cs k).triggered ≡ true
run-triggered [] k h = h
run-triggered (c ∷ cs) k h = run-triggered cs (step c k) (step-triggered c k h)

fired :
    (now : ℕ) (current initial : ℤ) (k : AutoKillSwitch)
    → (check now current initial k).0 ≡ true
    → (check now current initial k).1.triggered ≡ true
unfolding check
fired now current initial k h = ground arith

stays :
    (now : ℕ) (current initial : ℤ) (k : AutoKillSwitch)
    → k.triggered ≡ true
    → (check now current initial k).0 ≡ true
unfolding check
stays now current initial k h = ground arith

-- Once a check has answered that trading must stop, every later check does, whatever errors and
-- checks come in between and whatever the capital has become.
pub check_latched :
    (k : AutoKillSwitch) (now later : ℕ) (current initial current' initial' : ℤ) (cs : List Call)
    → (check now current initial k).0 ≡ true
    → (check later current' initial' (run cs (check now current initial k).1)).0 ≡ true
check_latched k now later current initial current' initial' cs h =
    stays later current' initial' (run cs (check now current initial k).1)
      (run-triggered cs (check now current initial k).1 (fired now current initial k h))

half : (n : ℕ) → n * 500 / 1_000 ≡ n / 2
half n = omega arith

-- An untriggered check answers that trading must stop exactly when the initial capital is positive
-- and less than half of it (rounded down) is left, or more than 50 errors are on record after the
-- leading ones of more than an hour ago are dropped.
pub check_iff :
    (k : AutoKillSwitch) (now initial : ℕ) (current : ℤ)
    → k.triggered ≡ false
    → ((check now current (pos initial) k).0 ≡ true) ↔ (
        (0 < initial) × (current <ℤ pos (initial / 2))
        ⊎ (50 < length (drop_stale now k.error_timestamps)))
unfolding check
check_iff k now initial current h =
    rw (pos-*ℤ initial 500, pos-/ℤ (initial * 500) 1_000, half initial, h)
      (λ fires. ground arith, λ cause. ground arith)

-- The answer that the file check gives is the file system's at some moment less than a second
-- before, or at the moment itself.
pub is_kill_switch_active_fresh :
    (now : ℕ) (exists : Bool) (c : KillSwitchCache)
    → c.checked_at ≤ now
    → let (active, c') = is_kill_switch_active now exists c in
      (active ≡ c'.active)
      × (c'.checked_at ≤ now)
      × (now < c'.checked_at + 1_000)
      × ((c' ≡ c) ⊎ (c'.checked_at ≡ now) × (c'.active ≡ exists))
unfolding is_kill_switch_active
is_kill_switch_active_fresh now exists c h = ground arith
