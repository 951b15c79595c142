-- ===== src/Executor/CircuitBreaker/Behaviour.antt =====
-- recovery.service.ts: when the breaker opens, how long it stays open, and when it closes.
use mathlib.Core.List.{append-nil, append_assoc}
use internship_project_peanu.Prelude.{
  ℕ, ◌+◌, ◌≤◌, ◌<◌, ◌≡◌, refl, Bool, true, false, Option, none, some, List, [], ◌∷◌, ◌++◌, ltb, leb,
  if◌then◌else◌, length, keep, All, arith, length-append, length-keep, Bool-cases, inl, inr, ap,
  subst, sym, ◌∙◌,
}
use internship_project_peanu.Executor.CircuitBreaker.{
  CircuitBreaker, in_window, record_failure, record_success, is_open, time_until_reset_ms,
}

-- What the executor does with the breaker: each call, with the times that the clock gives.
pub data Call : Type 0 where
  failure : ℕ → ℕ → Call
  success : Call
  check : ℕ → Call

-- The state after a call, and the answer of a check.
abbrev pub step : Call → CircuitBreaker → Option Bool × CircuitBreaker
step (failure now trip_now) b = (none, record_failure now trip_now b)
step success b = (none, record_success b)
step (check now) b = let (blocked, b') = is_open now b in (some blocked, b')

abbrev pub run : List Call → CircuitBreaker → List (Option Bool) × CircuitBreaker
run [] b = ([], b)
run (c ∷ cs) b =
    let (answer, b') = step c b in let (answers, last) = run cs b' in (answer ∷ answers, last)

-- No check of the calls is made after `limit`, and no trip is stamped before `since`.
abbrev pub Between : ℕ → ℕ → Call → Type 0
Between since limit (failure now trip_now) = since ≤ trip_now
Between since limit success = Unit
Between since limit (check now) = now ≤ limit

abbrev pub Blocks : Option Bool → Type 0
Blocks none = Unit
Blocks (some blocked) = blocked ≡ true

-- Tripped at `since` or later.
abbrev pub TrippedSince : ℕ → CircuitBreaker → Type 0
TrippedSince since b = (t : ℕ) × (b.tripped_at ≡ some t) × (since ≤ t)

step-Blocks :
    (since : ℕ) (c : Call) (b : CircuitBreaker)
    → TrippedSince since b
    → Between since (since + b.cooldown_ms) c
    → Blocks (step c b).0
      × TrippedSince since (step c b).1
      × ((step c b).1.cooldown_ms ≡ b.cooldown_ms)
unfolding record_failure record_success is_open
step-Blocks since (failure now trip_now) b (t, e, le) h =
    elim (Bool-cases (
      leb b.failure_threshold
        (length (keep (in_window b.window_ms now) (b.failures ++ now ∷ []))))) [
          | inl trips ↦ rw trips (tt, (trip_now, refl, h), refl)
          | inr quiet ↦ rw quiet (tt, (t, e, le), refl)
        ]
step-Blocks since success b h _ = (tt, h, refl)
step-Blocks since (check now) b (t, e, le) h =
    let in_cooldown : ltb (t + b.cooldown_ms) now ≡ false = ground arith in
    rw (e, in_cooldown) (refl, (t, refl, le), refl)

-- A breaker that was tripped at some time blocks every check up to the cooldown after that time,
-- whatever calls are made in between.
pub run-Blocks :
    (since : ℕ) (cs : List Call) (b : CircuitBreaker)
    → TrippedSince since b
    → All (Between since (since + b.cooldown_ms)) cs
    → All Blocks (run cs b).0 × TrippedSince since (run cs b).1
run-Blocks since [] b h hs = (tt, h)
run-Blocks since (c ∷ cs) b h hs =
    let (blocks, still, same) = step-Blocks since c b h hs.0 in
    let (rest, last) =
      run-Blocks since cs (step c b).1 still
        (subst (λ n. All (Between since (since + n)) cs) (sym same) hs.1) in
    ((blocks, rest), last)

-- A run of failures, each with the time of the failure and the time that a trip would stamp.
abbrev pub fail_all : List (ℕ × ℕ) → CircuitBreaker → CircuitBreaker
fail_all [] b = b
fail_all ((now, trip_now) ∷ ts) b = fail_all ts (record_failure now trip_now b)

abbrev pub times : List (ℕ × ℕ) → List ℕ
times [] = []
times ((now, _) ∷ ts) = now ∷ times ts

keep-append : (p : ℕ → Bool) (xs ys : List ℕ) → keep p (xs ++ ys) ≡ keep p xs ++ keep p ys
keep-append p [] ys = refl
keep-append p (x ∷ xs) ys = ground (arith, keep-append p xs ys)

-- Pruning at an earlier time first makes no difference.
keep-keep :
    (w early late : ℕ) (xs : List ℕ)
    → early ≤ late
    → keep (in_window w late) (keep (in_window w early) xs) ≡ keep (in_window w late) xs
keep-keep w early late [] h = refl
keep-keep w early late (x ∷ xs) h = ground (arith, keep-keep w early late xs h)

record_failure-fields :
    (now trip_now : ℕ) (b : CircuitBreaker)
    → let b' = record_failure now trip_now b in
      (b'.failures ≡ keep (in_window b.window_ms now) (b.failures ++ now ∷ []))
      × (b'.window_ms ≡ b.window_ms)
      × (b'.failure_threshold ≡ b.failure_threshold)
      × (b'.tripped_at ≡ (
          if leb b.failure_threshold
            (length (keep (in_window b.window_ms now) (b.failures ++ now ∷ [])))
          then some trip_now
          else b.tripped_at))
unfolding record_failure
record_failure-fields now trip_now b =
    elim (Bool-cases (
      leb b.failure_threshold
        (length (keep (in_window b.window_ms now) (b.failures ++ now ∷ []))))) [
          | inl trips ↦ rw trips (refl, refl, refl, refl)
          | inr quiet ↦ rw quiet (refl, refl, refl, refl)
        ]

fail_all-failures :
    (ts : List (ℕ × ℕ)) (b : CircuitBreaker) (now : ℕ)
    → All (λ t. t.0 ≤ now) ts
    → let b' = fail_all ts b in
      (keep (in_window b.window_ms now) b'.failures
        ≡ keep (in_window b.window_ms now) (b.failures ++ times ts))
      × (b'.window_ms ≡ b.window_ms)
      × (b'.failure_threshold ≡ b.failure_threshold)
fail_all-failures [] b now h = (rw append-nil, refl, refl)
fail_all-failures ((t, trip_now) ∷ ts) b now h =
    let first = record_failure-fields t trip_now b in
    let (rest, window, threshold) = fail_all-failures ts (record_failure t trip_now b) now h.1 in
    let w : ℕ = b.window_ms in
    let at_now : List ℕ → List ℕ = keep (in_window w now) in
    let r : CircuitBreaker = record_failure t trip_now b in
    (
      subst
            (λ n.
              keep (in_window n now) (fail_all ts r).failures
              ≡ keep (in_window n now) (r.failures ++ times ts))
            first.1 rest
          ∙ keep-append _ (record_failure t trip_now b).failures (times ts)
          ∙ ap (λ xs. at_now xs ++ at_now (times ts)) first.0
          ∙ ap (λ xs. xs ++ at_now (times ts)) (keep-keep w t now (b.failures ++ t ∷ []) h.0)
          ∙ sym (keep-append _ (b.failures ++ t ∷ []) (times ts))
          ∙ ap at_now (append_assoc b.failures (t ∷ []) (times ts)),
      window ∙ first.1,
      threshold ∙ first.2,
    )

-- After any failures at times that are not after `now`, a failure at `now` opens the breaker
-- exactly when the failures of the whole history that are within the window of `now`, itself
-- included, reach the threshold; otherwise the stamp of the last trip stays as it was.
pub record_failure_trips :
    (ts : List (ℕ × ℕ)) (b : CircuitBreaker) (now trip_now : ℕ)
    → All (λ t. t.0 ≤ now) ts
    → let recent = keep (in_window b.window_ms now) ((b.failures ++ times ts) ++ now ∷ []) in
      (record_failure now trip_now (fail_all ts b)).tripped_at ≡ (
        if leb b.failure_threshold (length recent)
        then some trip_now
        else (fail_all ts b).tripped_at)
record_failure_trips ts b now trip_now h =
    let (pruned, window, threshold) = fail_all-failures ts b now h in
    let p : ℕ → Bool = in_window b.window_ms now in
    let same : keep p ((fail_all ts b).failures ++ now ∷ [])
        ≡ keep p ((b.failures ++ times ts) ++ now ∷ []) =
      keep-append p (fail_all ts b).failures (now ∷ [])
      ∙ ap (λ xs. xs ++ keep p (now ∷ [])) pruned
      ∙ sym (keep-append p (b.failures ++ times ts) (now ∷ [])) in
    let stamp = (record_failure-fields now trip_now (fail_all ts b)).3 in
    rw (window, threshold, same) at stamp

-- Fewer failures than the threshold, counting those on record, never open a closed breaker.
pub fail_all_below_threshold :
    (ts : List (ℕ × ℕ)) (b : CircuitBreaker)
    → b.tripped_at ≡ none
    → length b.failures + length ts < b.failure_threshold
    → (fail_all ts b).tripped_at ≡ none
fail_all_below_threshold [] b closed h = closed
fail_all_below_threshold ((t, trip_now) ∷ ts) b closed h =
    let (failures, window, threshold, stamp) = record_failure-fields t trip_now b in
    let few : length (keep (in_window b.window_ms t) (b.failures ++ t ∷ []))
        ≤ length b.failures + 1 =
      omega (
        arith,
        length-keep (in_window b.window_ms t) (b.failures ++ t ∷ []),
        length-append b.failures (t ∷ []),
      ) in
    fail_all_below_threshold ts (record_failure t trip_now b) (ground arith)
      (rw (failures, threshold) (omega arith))

-- Once the cooldown after the last trip is over, a check finds the breaker closed; the failures
-- are forgotten, so that fewer than the threshold do not open it again.
pub is_open_recovers :
    (b : CircuitBreaker) (t now : ℕ) (ts : List (ℕ × ℕ))
    → b.tripped_at ≡ some t
    → t + b.cooldown_ms < now
    → length ts < b.failure_threshold
    → ((is_open now b).0 ≡ false)
      × ((is_open now b).1.tripped_at ≡ none)
      × ((fail_all ts (is_open now b).1).tripped_at ≡ none)
unfolding is_open
is_open_recovers b t now ts e late few =
    let over : ltb (t + b.cooldown_ms) now ≡ true = ground arith in
    rw (e, over)
      (
        refl,
        refl,
        fail_all_below_threshold ts (record b { tripped_at = none; failures = [] }) refl
            (omega arith),
      )

-- The time that `timeUntilResetMs` reports for an open breaker is exact: the breaker is still open
-- that many milliseconds later, and closed one millisecond after that.
pub is_open-time_until_reset_ms :
    (b : CircuitBreaker) (now : ℕ)
    → (is_open now b).0 ≡ true
    → let left = time_until_reset_ms now b in
      ((is_open (now + left) b).0 ≡ true) × ((is_open (now + left + 1) b).0 ≡ false)
unfolding is_open time_until_reset_ms
is_open-time_until_reset_ms b now h = (ground arith, ground arith)
