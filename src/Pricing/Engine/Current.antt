-- ===== src/Pricing/Engine/Current.antt =====
-- engine.service.ts: the route graph keeps up with the pools.
use internship_project_peanu.Prelude.{
  ℕ, ◌≡◌, refl, sym, ap, ◌∙◌, true, false, Option, none, some, List, [], ◌∷◌, if_elim, All,
  Bool-cases, inl, inr, arith,
}
use internship_project_peanu.Prelude.Int.{ℤ, pos}
use internship_project_peanu.Prelude.Result.{Result, ok, err}
use internship_project_peanu.Core.{Address, equals, equals→eq, equals_refl, lower, eq_codes}
use internship_project_peanu.Pricing.Pair.{UniswapV2Pair}
use internship_project_peanu.Pricing.Routing.{RouteFinder, update_pool, replace_first, has_pool}
use internship_project_peanu.Pricing.Routing.Rebuilt.{
  Unique, SameTokens, or_false, same_key, update_pool-new_finder,
}
use internship_project_peanu.Pricing.Engine.{
  PricingEngine, put_pool, put_pools, find_pool, finder_of, patched, set_pool, set_pools,
  load_pools, refresh_pool, refresh_pools, synced_pool, on_sync,
}

-- The router, if there is one, is the one that would be built from the pools now.
abbrev pub IsRebuilt : List UniswapV2Pair → Option RouteFinder → Type 0
IsRebuilt ps none = Unit
IsRebuilt ps (some r) = r ≡ finder_of ps

pub record IsCurrent (e : PricingEngine) : Type 0 where
  pub unique : Unique e.pools
  pub rebuilt : IsRebuilt e.pools e.router

eq_codes_sym : (xs ys : List ℕ) → eq_codes xs ys ≡ eq_codes ys xs
eq_codes_sym [] [] = refl
eq_codes_sym [] (y ∷ ys) = refl
eq_codes_sym (x ∷ xs) [] = refl
eq_codes_sym (x ∷ xs) (y ∷ ys) = ground (arith, eq_codes_sym xs ys)

equals_sym : (a b : Address) → equals a b ≡ equals b a
unfolding equals
equals_sym a b = eq_codes_sym (lower a) (lower b)

-- An address that is elsewhere in the list stays absent.
put_pool-absent :
    (p u : UniswapV2Pair) (ps : List UniswapV2Pair)
    → equals u.address p.address ≡ false
    → has_pool p ps ≡ false
    → has_pool p (put_pool u ps) ≡ false
unfolding put_pool
put_pool-absent p u [] differs h = rw differs refl
put_pool-absent p u (q ∷ ps) differs h =
    let (other, later) = or_false (equals q.address p.address) (has_pool p ps) h in
    if_elim (λ qs. has_pool p qs ≡ false) (equals q.address u.address) (u ∷ ps) (q ∷ put_pool u ps)
      (λ _. rw differs later) (λ _. rw other (put_pool-absent p u ps differs later))

put_pool-Unique : (u : UniswapV2Pair) (ps : List UniswapV2Pair) → Unique ps → Unique (put_pool u ps)
unfolding put_pool
put_pool-Unique u [] h = (refl, tt)
put_pool-Unique u (p ∷ ps) h = elim (Bool-cases (equals p.address u.address)) [
  | inl same ↦ rw same (sym (same_key p u ps (equals→eq p.address u.address same)) ∙ h.0, h.1)
  | inr differs ↦ rw differs (
    put_pool-absent p u ps (equals_sym u.address p.address ∙ differs) h.0,
    put_pool-Unique u ps h.1,
  )
]

-- For a pool that is there, the map's update is the finder's.
put_pool-replace_first :
    (u : UniswapV2Pair) (ps : List UniswapV2Pair)
    → has_pool u ps ≡ true
    → put_pool u ps ≡ replace_first u ps
unfolding put_pool replace_first
put_pool-replace_first u [] h = cc h
put_pool-replace_first u (p ∷ ps) h = elim (Bool-cases (equals p.address u.address)) [
  | inl same ↦ rw same refl
  | inr differs ↦ rw differs (ap (λ qs. p ∷ qs) (put_pool-replace_first u ps (rw differs at h)))
]

-- An update with a pool that is there, with its tokens.
abbrev pub Known : List UniswapV2Pair → UniswapV2Pair → Type 0
Known ps u = (has_pool u ps ≡ true) × All (SameTokens u) ps

patched-IsRebuilt :
    (u : UniswapV2Pair) (ps : List UniswapV2Pair) (o : Option RouteFinder)
    → Known ps u
    → Unique ps
    → IsRebuilt ps o
    → IsRebuilt (put_pool u ps) (patched u o)
patched-IsRebuilt u ps none known unique h = tt
patched-IsRebuilt u ps (some r) known unique h =
    ap (update_pool u) h
    ∙ update_pool-new_finder u ps (pos 150_000) (pos 100_000) known.0 unique known.1
    ∙ ap finder_of (sym (put_pool-replace_first u ps known.0))

set_pool-IsCurrent :
    (u : UniswapV2Pair) (e : PricingEngine)
    → Known e.pools u
    → IsCurrent e
    → IsCurrent (set_pool u e)
unfolding set_pool
set_pool-IsCurrent u e known h = record {
  unique = put_pool-Unique u e.pools h.unique;
  rebuilt = patched-IsRebuilt u e.pools e.router known h.unique h.rebuilt;
}

absent-SameTokens :
    (u : UniswapV2Pair) (ps : List UniswapV2Pair) → has_pool u ps ≡ false → All (SameTokens u) ps
absent-SameTokens u [] h = tt
absent-SameTokens u (p ∷ ps) h =
    let (differs, later) = or_false (equals p.address u.address) (has_pool u ps) h in
    (λ same. cc (differs, same), absent-SameTokens u ps later)

abbrev FoundKnown : List UniswapV2Pair → ℤ → ℤ → Option UniswapV2Pair → Type 0
FoundKnown ps r0 r1 none = Unit
FoundKnown ps r0 r1 (some p) = Known ps (record p { reserve0 = r0; reserve1 = r1 })

-- A pool that is found further on is known with the head as well.
later-FoundKnown :
    (q : UniswapV2Pair) (ps : List UniswapV2Pair) (r0 r1 : ℤ) (o : Option UniswapV2Pair)
    → has_pool q ps ≡ false
    → FoundKnown ps r0 r1 o
    → FoundKnown (q ∷ ps) r0 r1 o
later-FoundKnown q ps r0 r1 none absent h = tt
later-FoundKnown q ps r0 r1 (some p) absent h =
    let u : UniswapV2Pair = record p { reserve0 = r0; reserve1 = r1 } in
    elim (Bool-cases (equals q.address p.address)) [
      | inl same ↦ cc (absent, h.0, same_key q u ps (equals→eq q.address p.address same))
      | inr differs ↦ (rw differs h.0, ((λ same. cc (differs, same)), h.1))
    ]

find_pool-FoundKnown :
    (a : Address) (ps : List UniswapV2Pair) (r0 r1 : ℤ)
    → Unique ps
    → FoundKnown ps r0 r1 (find_pool a ps)
unfolding find_pool
find_pool-FoundKnown a [] r0 r1 h = tt
find_pool-FoundKnown a (q ∷ ps) r0 r1 h =
    if_elim (FoundKnown (q ∷ ps) r0 r1) (equals q.address a) (some q) (find_pool a ps)
      (λ _. (
        rw (equals_refl q.address) refl,
        ((λ _. (refl, refl)), absent-SameTokens (record q { reserve0 = r0; reserve1 = r1 }) ps h.0),
      ))
      (λ _. later-FoundKnown q ps r0 r1 (find_pool a ps) h.0 (find_pool-FoundKnown a ps r0 r1 h.1))

synced_pool-IsCurrent :
    (o : Option UniswapV2Pair) (r0 r1 : ℤ) (e : PricingEngine)
    → FoundKnown e.pools r0 r1 o
    → IsCurrent e
    → IsCurrent (synced_pool o r0 r1 e)
synced_pool-IsCurrent none r0 r1 e known h = h
synced_pool-IsCurrent (some p) r0 r1 e known h =
    set_pool-IsCurrent (record p { reserve0 = r0; reserve1 = r1 }) e known h

put_pools-Unique : (us ps : List UniswapV2Pair) → Unique ps → Unique (put_pools us ps)
put_pools-Unique [] ps h = h
put_pools-Unique (u ∷ us) ps h = put_pools-Unique us (put_pool u ps) (put_pool-Unique u ps h)

-- What changes the pools: reading them all, reading one or several again, and a Sync event.
pub data Update : Type 0 where
  load : Result (List UniswapV2Pair) → Update
  refresh : Result UniswapV2Pair → Update
  refresh_all : Result (List UniswapV2Pair) → Update
  sync : Address → Option ℤ → Option ℤ → Update

abbrev pub apply : Update → PricingEngine → PricingEngine
apply (load r) e = (load_pools r e).1
apply (refresh r) e = (refresh_pool r e).1
apply (refresh_all r) e = (refresh_pools r e).1
apply (sync a r0 r1) e = on_sync a r0 r1 e

abbrev pub run : List Update → PricingEngine → PricingEngine
run [] e = e
run (u ∷ us) e = run us (apply u e)

abbrev pub AllKnown : List UniswapV2Pair → PricingEngine → Type 0
AllKnown [] e = Unit
AllKnown (u ∷ us) e = Known e.pools u × AllKnown us (set_pool u e)

-- What is read again is a pool that the engine has, with its tokens.
abbrev pub Allowed : Update → PricingEngine → Type 0
Allowed (load r) e = Unit
Allowed (refresh (ok u)) e = Known e.pools u
Allowed (refresh (err x)) e = Unit
Allowed (refresh_all (ok us)) e = AllKnown us e
Allowed (refresh_all (err x)) e = Unit
Allowed (sync a r0 r1) e = Unit

abbrev pub AllAllowed : List Update → PricingEngine → Type 0
AllAllowed [] e = Unit
AllAllowed (u ∷ us) e = Allowed u e × AllAllowed us (apply u e)

set_pools-IsCurrent :
    (us : List UniswapV2Pair) (e : PricingEngine)
    → AllKnown us e
    → IsCurrent e
    → IsCurrent (set_pools us e)
set_pools-IsCurrent [] e known h = h
set_pools-IsCurrent (u ∷ us) e known h =
    set_pools-IsCurrent us (set_pool u e) known.1 (set_pool-IsCurrent u e known.0 h)

apply-IsCurrent :
    (u : Update) (e : PricingEngine) → Allowed u e → IsCurrent e → IsCurrent (apply u e)
unfolding load_pools refresh_pool refresh_pools on_sync
apply-IsCurrent (load (err x)) e a h = h
apply-IsCurrent (load (ok us)) e a h = record {
  unique = put_pools-Unique us e.pools h.unique;
  rebuilt = refl;
}
apply-IsCurrent (refresh (err x)) e a h = h
apply-IsCurrent (refresh (ok u)) e a h = set_pool-IsCurrent u e a h
apply-IsCurrent (refresh_all (err x)) e a h = h
apply-IsCurrent (refresh_all (ok us)) e a h = set_pools-IsCurrent us e a h
apply-IsCurrent (sync a none r1) e k h = h
apply-IsCurrent (sync a (some r0) none) e k h = h
apply-IsCurrent (sync a (some r0) (some r1)) e k h =
    synced_pool-IsCurrent (find_pool a e.pools) r0 r1 e
      (find_pool-FoundKnown a e.pools r0 r1 h.unique) h

-- The route graph that is patched in place is at any time the one that would be built from the
-- engine's pools as they are, after any loads, Sync events and readings of pools that the engine
-- has, which keep their tokens; and no address is there twice.
pub run-IsCurrent :
    (us : List Update) (e : PricingEngine) → AllAllowed us e → IsCurrent e → IsCurrent (run us e)
run-IsCurrent [] e a h = h
run-IsCurrent (u ∷ us) e a h = run-IsCurrent us (apply u e) a.1 (apply-IsCurrent u e a.0 h)
