-- ===== src/Pricing/Routing/Rebuilt.antt =====
-- routing.service.ts: patching the route graph in place against building it anew.
use internship_project_peanu.Prelude.{
  ◌≡◌, refl, sym, ap, ◌∙◌, Bool, true, false, ◌||◌, List, [], ◌∷◌, ◌++◌, map, if◌then◌else◌, All,
  Bool-cases, inl, inr,
}
use internship_project_peanu.Prelude.Int.{ℤ}
use internship_project_peanu.Core.{Address, Token, equals, equals→eq, lower, eq_codes}
use internship_project_peanu.Pricing.Pair.{UniswapV2Pair}
use internship_project_peanu.Pricing.Routing.{
  GraphEdge, RouteGraph, new_finder, build_graph, add_pools, add_edge, replace_first, has_pool,
  refresh_edge, update_pool,
}

-- No two pools have the same address.
abbrev pub Unique : List UniswapV2Pair → Type 0
Unique [] = Unit
Unique (p ∷ ps) = (has_pool p ps ≡ false) × Unique ps

-- A pool that the update replaces has its tokens.
abbrev pub SameTokens : UniswapV2Pair → UniswapV2Pair → Type 0
SameTokens u p = equals p.address u.address ≡ true → (p.token0 ≡ u.token0) × (p.token1 ≡ u.token1)

pub or_false : (a b : Bool) → (a || b) ≡ false → (a ≡ false) × (b ≡ false)
or_false true b h = cc h
or_false false b h = (refl, h)

-- Only the address counts for whether a pool is there.
pub same_key :
    (p u : UniswapV2Pair) (ps : List UniswapV2Pair)
    → lower p.address ≡ lower u.address
    → has_pool p ps ≡ has_pool u ps
unfolding equals
same_key p u [] h = refl
same_key p u (q ∷ ps) h =
    ap (λ k. eq_codes (lower q.address) k || has_pool p ps) h
    ∙ ap (λ b. eq_codes (lower q.address) (lower u.address) || b) (same_key p u ps h)

module _ (u : UniswapV2Pair) where
  abbrev swap : UniswapV2Pair → UniswapV2Pair
  swap p = if equals p.address u.address then u else p

  abbrev refresh : Address × List GraphEdge → Address × List GraphEdge
  refresh entry = (entry.0, map (refresh_edge u) entry.1)

  map-append :
      (xs ys : List GraphEdge)
      → map (refresh_edge u) (xs ++ ys) ≡ map (refresh_edge u) xs ++ map (refresh_edge u) ys
  map-append [] ys = refl
  map-append (x ∷ xs) ys = ap (λ zs. refresh_edge u x ∷ zs) (map-append xs ys)

  add_edge-refresh :
      (key : Address) (edge : GraphEdge) (g : RouteGraph)
      → map refresh (add_edge key edge g) ≡ add_edge key (refresh_edge u edge) (map refresh g)
  unfolding add_edge
  add_edge-refresh key edge [] = refl
  add_edge-refresh key edge ((k, edges) ∷ rest) = elim (Bool-cases (equals k key)) [
    | inl same ↦ rw same (ap (λ es. (k, es) ∷ map refresh rest) (map-append edges (edge ∷ [])))
    | inr other ↦ rw other (ap (λ g. refresh (k, edges) ∷ g) (add_edge-refresh key edge rest))
  ]

  -- An edge of a pool becomes the edge of the pool that takes its place.
  refresh_edge-swap :
      (p : UniswapV2Pair) (other : Token)
      → refresh_edge u (record { pool = p; other_token = other })
        ≡ record { pool = swap p; other_token = other }
  refresh_edge-swap p other = elim (Bool-cases (equals p.address u.address)) [
    | inl same ↦ rw same refl
    | inr differs ↦ rw differs refl
  ]

  swap-tokens :
      (p : UniswapV2Pair)
      → SameTokens u p
      → (p.token0 ≡ (swap p).token0) × (p.token1 ≡ (swap p).token1)
  swap-tokens p h = elim (Bool-cases (equals p.address u.address)) [
    | inl same ↦ rw same (h same)
    | inr differs ↦ rw differs (refl, refl)
  ]

  add_pools-refresh :
      (ps : List UniswapV2Pair) (g : RouteGraph)
      → All (SameTokens u) ps
      → map refresh (add_pools ps g) ≡ add_pools (map swap ps) (map refresh g)
  unfolding add_pools
  add_pools-refresh [] g h = refl
  add_pools-refresh (p ∷ ps) g h =
      let e0 : GraphEdge = record { pool = p; other_token = p.token0 } in
      let e1 : GraphEdge = record { pool = p; other_token = p.token1 } in
      let inner = add_edge p.token0.address e1 g in
      let mg : RouteGraph = map refresh g in
      let both : GraphEdge → GraphEdge → RouteGraph =
        λ x y. add_edge p.token1.address x (add_edge p.token0.address y mg) in
      let added : Token → Token → RouteGraph = λ a b.
        add_edge b.address (record { pool = swap p; other_token = a })
          (add_edge a.address (record { pool = swap p; other_token = b }) mg) in
      let (t0, t1) = swap-tokens p h.0 in
      add_pools-refresh ps (add_edge p.token1.address e0 inner) h.1
      ∙ ap (add_pools (map swap ps)) (
          add_edge-refresh p.token1.address e0 inner
          ∙ ap (add_edge p.token1.address (refresh_edge u e0))
              (add_edge-refresh p.token0.address e1 g)
          ∙ ap (λ x. both x (refresh_edge u e1)) (refresh_edge-swap p p.token0)
          ∙ ap (both (record { pool = swap p; other_token = p.token0 }))
              (refresh_edge-swap p p.token1)
          ∙ ap (λ a. added a p.token1) t0
          ∙ ap (added (swap p).token0) t1)

  absent-swap : (ps : List UniswapV2Pair) → has_pool u ps ≡ false → map swap ps ≡ ps
  absent-swap [] h = refl
  absent-swap (p ∷ ps) h =
      let (differs, later) = or_false (equals p.address u.address) (has_pool u ps) h in
      rw differs (ap (λ qs. p ∷ qs) (absent-swap ps later))

  replace_first-swap : (ps : List UniswapV2Pair) → Unique ps → replace_first u ps ≡ map swap ps
  unfolding replace_first
  replace_first-swap [] h = refl
  replace_first-swap (p ∷ ps) h = elim (Bool-cases (equals p.address u.address)) [
    | inl same ↦
        let absent : has_pool u ps ≡ false =
          sym (same_key p u ps (equals→eq p.address u.address same)) ∙ h.0 in
        rw same (ap (λ qs. u ∷ qs) (sym (absent-swap ps absent)))
    | inr differs ↦ rw differs (ap (λ qs. p ∷ qs) (replace_first-swap ps h.1))
  ]

  -- Patching the graph for a pool that the finder has, with the same tokens, gives the finder that
  -- would be built from the pools after the update.
  pub update_pool-new_finder :
      (ps : List UniswapV2Pair) (gas_base gas_per_hop : ℤ)
      → has_pool u ps ≡ true
      → Unique ps
      → All (SameTokens u) ps
      → update_pool u (new_finder ps gas_base gas_per_hop)
        ≡ new_finder (replace_first u ps) gas_base gas_per_hop
  unfolding update_pool new_finder build_graph
  update_pool-new_finder ps gas_base gas_per_hop known unique tokens =
      let same = replace_first-swap ps unique in
      rw (known, add_pools-refresh ps [] tokens, same) refl
