-- ===== src/Executor/CircuitBreaker.antt =====
-- executor/recovery/recovery.service.ts: `CircuitBreaker`. `Date.now()` is an argument, in
-- milliseconds. Differences of two times are written as sums, since they may be negative.
pub mod Behaviour
use internship_project_peanu.Prelude.{
  ℕ, ◌+◌, ◌-◌, Bool, true, false, Option, none, some, List, [], ◌∷◌, ◌++◌, ltb, leb, if◌then◌else◌,
  length, keep,
}

-- `CircuitBreakerConfig`: what is left out takes its default.
pub record CircuitBreakerConfig : Type 0 where
  pub failure_threshold : Option ℕ
  pub window_ms : Option ℕ
  pub cooldown_ms : Option ℕ

abbrev pub default_failure_threshold : ℕ
default_failure_threshold = 3

abbrev pub default_window_ms : ℕ
default_window_ms = 300_000

abbrev pub default_cooldown_ms : ℕ
default_cooldown_ms = 600_000

pub record CircuitBreaker : Type 0 where
  pub failure_threshold : ℕ
  pub window_ms : ℕ
  pub cooldown_ms : ℕ
  pub failures : List ℕ
  pub tripped_at : Option ℕ

-- `a ?? b`
abbrev pub or_default : Option ℕ → ℕ → ℕ
or_default none d = d
or_default (some n) d = n

unfoldable pub new : CircuitBreakerConfig → CircuitBreaker
new config = record {
  failure_threshold = or_default config.failure_threshold default_failure_threshold;
  window_ms = or_default config.window_ms default_window_ms;
  cooldown_ms = or_default config.cooldown_ms default_cooldown_ms;
  failures = [];
  tripped_at = none;
}

-- `t > now - windowMs`
abbrev pub in_window : ℕ → ℕ → ℕ → Bool
in_window window_ms now t = ltb now (t + window_ms)

unfoldable pub prune_window : ℕ → CircuitBreaker → CircuitBreaker
prune_window now b = record b { failures = keep (in_window b.window_ms now) b.failures }

unfoldable pub trip : ℕ → CircuitBreaker → CircuitBreaker
trip now b = record b { tripped_at = some now }

unfoldable pub reset : CircuitBreaker → CircuitBreaker
reset b = record b { tripped_at = none; failures = [] }

-- `recordFailure`; `trip` reads the clock a second time.
unfoldable pub record_failure : ℕ → ℕ → CircuitBreaker → CircuitBreaker
unfolding prune_window trip
record_failure now trip_now b =
    let pushed : CircuitBreaker = record b { failures = b.failures ++ now ∷ [] } in
    let pruned = prune_window now pushed in
    if leb pruned.failure_threshold (length pruned.failures) then trip trip_now pruned else pruned

-- Does nothing, as in the code.
unfoldable pub record_success : CircuitBreaker → CircuitBreaker
record_success b = b

unfoldable pub is_open : ℕ → CircuitBreaker → Bool × CircuitBreaker
unfolding reset
is_open now b = elim b.tripped_at [
  | none ↦ (false, b)
  -- `now - trippedAt > cooldownMs`
  | some tripped_at ↦ if ltb (tripped_at + b.cooldown_ms) now then (false, reset b) else (true, b)
]

-- `Math.max(0, cooldownMs - (now - trippedAt))`
unfoldable pub time_until_reset_ms : ℕ → CircuitBreaker → ℕ
time_until_reset_ms now b = elim b.tripped_at [
  | none ↦ 0
  | some tripped_at ↦ tripped_at + b.cooldown_ms - now
]
