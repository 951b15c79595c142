-- ===== src/Safety/KillSwitch.antt =====
-- safety/kill.switch.ts: the cached file check and `AutoKillSwitch`. The file system's answer and
-- `Date.now()` are arguments.
pub mod Latch
use internship_project_peanu.Prelude.{
  ℕ, ◌+◌, Bool, true, false, Option, none, some, List, [], ◌∷◌, ◌++◌, ltb, leb, ◌&&◌, if◌then◌else◌,
  length,
}
use internship_project_peanu.Prelude.Int.{ℤ, pos, ◌*ℤ◌, ◌/ℤ◌, ltb_ℤ}

-- `killSwitchCache`
pub record KillSwitchCache : Type 0 where
  pub active : Bool
  pub checked_at : ℕ

abbrev pub kill_switch_cache_ms : ℕ
kill_switch_cache_ms = 1_000

-- `_resetKillSwitchCacheForTesting`, and the cache at startup
abbrev pub fresh_cache : KillSwitchCache
fresh_cache = record { active = false; checked_at = 0 }

-- `exists` is what `existsSync` would answer now; it is asked only when the cache is old.
unfoldable pub is_kill_switch_active : ℕ → Bool → KillSwitchCache → Bool × KillSwitchCache
is_kill_switch_active now exists c =
    let cache : KillSwitchCache =
      if leb (c.checked_at + kill_switch_cache_ms) now
      then record { active = exists; checked_at = now }
      else c in
    (cache.active, cache)

pub data TriggerReason : Type 0 where
  capital_dropped : TriggerReason
  error_storm : TriggerReason

pub record AutoKillSwitch : Type 0 where
  pub triggered : Bool
  pub trigger_reason : Option TriggerReason
  pub error_timestamps : List ℕ

abbrev pub new : AutoKillSwitch
new = record { triggered = false; trigger_reason = none; error_timestamps = [] }

abbrev pub error_window_ms : ℕ
error_window_ms = 3_600_000

abbrev pub max_errors_per_hour : ℕ
max_errors_per_hour = 50

unfoldable pub record_error : ℕ → AutoKillSwitch → AutoKillSwitch
record_error now k = record k { error_timestamps = k.error_timestamps ++ now ∷ [] }

unfoldable pub trigger : TriggerReason → AutoKillSwitch → AutoKillSwitch
trigger reason k = record k { triggered = true; trigger_reason = some reason }

-- The leading entries with `t <= now - ERROR_WINDOW_MS` are dropped.
unfoldable pub drop_stale : ℕ → List ℕ → List ℕ
drop_stale now [] = []
drop_stale now (t ∷ ts) = if leb (t + error_window_ms) now then drop_stale now ts else t ∷ ts

unfoldable pub prune_error_window : ℕ → AutoKillSwitch → AutoKillSwitch
prune_error_window now k = record k { error_timestamps = drop_stale now k.error_timestamps }

-- `Math.round(CAPITAL_FLOOR_PCT * 1_000)` is 500.
unfoldable pub check : ℕ → ℤ → ℤ → AutoKillSwitch → Bool × AutoKillSwitch
unfolding trigger prune_error_window
check now current_capital initial_capital k =
    let pruned = prune_error_window now k in
    if k.triggered
    then (true, k)
    else if ltb_ℤ (pos 0) initial_capital
        && ltb_ℤ current_capital ((initial_capital *ℤ pos 500) /ℤ pos 1_000)
    then (true, trigger capital_dropped k)
    else if ltb max_errors_per_hour (length pruned.error_timestamps)
    then (true, trigger error_storm pruned)
    else (false, pruned)
