-- ===== src/Executor/Replay/Window.antt =====
-- recovery.service.ts: an executed signal is a duplicate for exactly the time to live.
use text.Mathlib.TextPositions.{eq_refl}
use internship_project_peanu.Prelude.{
  ℕ, ◌+◌, ◌≤◌, ◌≡◌, refl, ◌≢◌, Bool, true, false, Option, none, some, List, [], ◌∷◌, String, ltb,
  arith, All, ◌∙◌, ap,
}
use internship_project_peanu.Prelude.Dict
use internship_project_peanu.Prelude.Dict.{Dict, kept, not_same}
use internship_project_peanu.Executor.Replay.{
  ReplayProtection, remembered, is_duplicate, mark_executed,
}

-- The calls of the executor, each with the time that the clock gives.
pub data Call : Type 0 where
  check : ℕ → String → Call
  mark : ℕ → String → Call

abbrev pub step : Call → ReplayProtection → ReplayProtection
step (check now id) r = (is_duplicate now id r).1
step (mark now id) r = mark_executed now id r

abbrev pub run : List Call → ReplayProtection → ReplayProtection
run [] r = r
run (c ∷ cs) r = run cs (step c r)

-- A call made not after `now` that does not mark `id`.
abbrev pub Leaves : String → ℕ → Call → Type 0
Leaves id now (check t j) = t ≤ now
Leaves id now (mark t j) = (t ≤ now) × (j ≢ id)

abbrev pub IsMap : ReplayProtection → Type 0
IsMap r = Dict.IsMap r.executed

-- What is known of `id`: its entry, if it can still matter at `now`.
abbrev live : ReplayProtection → String → ℕ → Option ℕ
live r id now = kept (remembered r.ttl_ms now) (Dict.get id r.executed)

abbrev present : Option ℕ → Bool
present = elim [ none ↦ false | some _ ↦ true ]

duplicate_live :
    (r : ReplayProtection) (id : String) (now : ℕ)
    → IsMap r
    → (is_duplicate now id r).0 ≡ present (live r id now)
unfolding is_duplicate
duplicate_live r id now m =
    ap present (Dict.get-filter_values (remembered r.ttl_ms now) id r.executed m)

-- What is forgotten at an earlier time is no longer live later.
kept-kept :
    (ttl early late : ℕ) (o : Option ℕ)
    → early ≤ late
    → kept (remembered ttl late) (kept (remembered ttl early) o) ≡ kept (remembered ttl late) o
kept-kept ttl early late o h = ground arith

step-keeps :
    (c : Call) (r : ReplayProtection) (id : String) (now : ℕ)
    → IsMap r
    → Leaves id now c
    → IsMap (step c r) × (live (step c r) id now ≡ live r id now) × ((step c r).ttl_ms ≡ r.ttl_ms)
unfolding is_duplicate mark_executed
step-keeps (check t j) r id now m h = (
  Dict.filter_values-IsMap (remembered r.ttl_ms t) r.executed m,
  rw (Dict.get-filter_values (remembered r.ttl_ms t) id r.executed m)
      (kept-kept r.ttl_ms t now (Dict.get id r.executed) h),
  refl,
)
step-keeps (mark t j) r id now m h = (
  Dict.put-IsMap j t r.executed m,
  rw (Dict.get-put j id t r.executed, not_same j id h.1) refl,
  refl,
)

run-keeps :
    (cs : List Call) (r : ReplayProtection) (id : String) (now : ℕ)
    → IsMap r
    → All (Leaves id now) cs
    → IsMap (run cs r) × (live (run cs r) id now ≡ live r id now)
run-keeps [] r id now m hs = (m, refl)
run-keeps (c ∷ cs) r id now m hs =
    let (m', same, _) = step-keeps c r id now m hs.0 in
    let (m'', rest) = run-keeps cs (step c r) id now m' hs.1 in (m'', rest ∙ same)

-- A signal marked as executed at `t` is found to be a duplicate at `now` exactly when less than the
-- time to live has passed, whatever checks, and marks of other signals, were made in between at
-- times not after `now`.
pub is_duplicate_exact :
    (r : ReplayProtection) (id : String) (t now : ℕ) (cs : List Call)
    → IsMap r
    → All (Leaves id now) cs
    → (is_duplicate now id (run cs (mark_executed t id r))).0 ≡ ltb now (t + r.ttl_ms)
is_duplicate_exact r id t now cs m hs =
    let marked : ReplayProtection = mark_executed t id r in
    let m' : IsMap marked = unfold mark_executed in Dict.put-IsMap id t r.executed m in
    let (m'', same) = run-keeps cs marked id now m' hs in
    let found : live marked id now ≡ kept (remembered r.ttl_ms now) (some t) =
      unfold mark_executed in rw (Dict.get-put id id t r.executed, eq_refl id) refl in
    duplicate_live (run cs marked) id now m'' ∙ rw (same, found) (ground arith)

-- A signal that was never marked is no duplicate.
pub is_duplicate_unmarked :
    (r : ReplayProtection) (id : String) (now : ℕ) (cs : List Call)
    → IsMap r
    → Dict.get id r.executed ≡ none
    → All (Leaves id now) cs
    → (is_duplicate now id (run cs r)).0 ≡ false
is_duplicate_unmarked r id now cs m unknown hs =
    let (m', same) = run-keeps cs r id now m hs in
    duplicate_live (run cs r) id now m' ∙ rw (same, unknown) refl
