-- ===== src/Executor/Replay.antt =====
-- executor/recovery/recovery.service.ts: `ReplayProtection`. `Date.now()` is an argument.
pub mod Window
use internship_project_peanu.Prelude.{
  ℕ, ◌+◌, Bool, true, false, Option, none, some, List, [], String, ltb, if◌then◌else◌,
}
use internship_project_peanu.Prelude.Dict
use internship_project_peanu.Prelude.Dict.{Dict}
use internship_project_peanu.Executor.CircuitBreaker.{or_default}

abbrev pub default_replay_ttl_ms : ℕ
default_replay_ttl_ms = 60_000

pub record ReplayProtection : Type 0 where
  pub ttl_ms : ℕ
  -- the signal's id to the time of its execution
  pub executed : Dict ℕ

-- `ReplayProtectionConfig` has the one optional field `ttlMs`.
unfoldable pub new : Option ℕ → ReplayProtection
new ttl_ms = record { ttl_ms = or_default ttl_ms default_replay_ttl_ms; executed = [] }

-- Not `ts <= now - ttlMs`, as a sum.
abbrev pub remembered : ℕ → ℕ → ℕ → Bool
remembered ttl_ms now ts = ltb now (ts + ttl_ms)

unfoldable pub cleanup : ℕ → ReplayProtection → ReplayProtection
cleanup now r = record r { executed = Dict.filter_values (remembered r.ttl_ms now) r.executed }

-- The signal is used by its `signalId` only.
unfoldable pub is_duplicate : ℕ → String → ReplayProtection → Bool × ReplayProtection
unfolding cleanup Dict.has
is_duplicate now signal_id r =
    let cleaned = cleanup now r in (Dict.has signal_id cleaned.executed, cleaned)

unfoldable pub mark_executed : ℕ → String → ReplayProtection → ReplayProtection
mark_executed now signal_id r = record r { executed = Dict.put signal_id now r.executed }
