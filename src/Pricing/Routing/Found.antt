-- ===== src/Pricing/Routing/Found.antt =====
-- routing.service.ts: the routes that the search finds.
use internship_project_peanu.Prelude.{
  ℕ, zero, suc, ◌+◌, ◌-◌, ◌≤◌, ◌≡◌, refl, true, false, List, [], ◌∷◌, ◌++◌, map, length, All, arith,
  if_elim, if_true, subst, ◌⊎◌, inl, inr, ◌==◌, length-append,
}
use internship_project_peanu.Prelude.Int.{ℤ}
use internship_project_peanu.Prelude.Result.{ok}
use internship_project_peanu.Core.{
  Address, Token, lower, equals, equals→eq, equals_refl, eq_codes_refl, eq_codes,
}
use internship_project_peanu.Pricing.Pair.{UniswapV2Pair}
use internship_project_peanu.Pricing.Routing.{
  Route, GraphEdge, RouteGraph, RouteFinder, Walk, new_route, edges_at, add_edge, add_pools,
  build_graph, new_finder, has_pool, extended, explore, dfs, route_of, find_all_routes,
}

-- A pool leads from the token at an address to another token: they are its two tokens.
abbrev pub Joins : UniswapV2Pair → Address → Token → Type 0
Joins p a u =
    (equals a p.token0.address ≡ true) × (u ≡ p.token1)
    ⊎ (equals a p.token1.address ≡ true) × (u ≡ p.token0)

-- The swap paths from a token: the pools, the tokens, and the last token. No pool is used twice.
pub data SwapPath (start : Token) : List UniswapV2Pair → List Token → Token → Type 0 where
  here : SwapPath start [] (start ∷ []) start
  onward :
      {pools : List UniswapV2Pair} {path : List Token} {current next : Token} (pool : UniswapV2Pair)
      → SwapPath start pools path current
      → Joins pool current.address next
      → has_pool pool pools ≡ false
      → SwapPath start (pools ++ pool ∷ []) (path ++ next ∷ []) next

equals_through : (k a b : Address) → equals k a ≡ true → equals k b ≡ true → equals a b ≡ true
unfolding equals
equals_through k a b h g =
    subst (λ x. eq_codes x (lower b) ≡ true) (equals→eq k a h)
      (subst (λ y. eq_codes (lower k) y ≡ true) (equals→eq k b g) (eq_codes_refl (lower k)))

Joins-at :
    (p : UniswapV2Pair) (k a : Address) (u : Token) → equals k a ≡ true → Joins p k u → Joins p a u
Joins-at p k a u h (inl (e, same)) = inl (equals_through k a p.token0.address h e, same)
Joins-at p k a u h (inr (e, same)) = inr (equals_through k a p.token1.address h e, same)

-- Every edge listed at an address leads on from there.
abbrev Leads : Address → GraphEdge → Type 0
Leads a edge = Joins edge.pool a edge.other_token

abbrev pub IsGraph : RouteGraph → Type 0
IsGraph g = All (λ entry. All (Leads entry.0) entry.1) g

All-snoc :
    (P : GraphEdge → Type 0) (xs : List GraphEdge) (x : GraphEdge)
    → All P xs
    → P x
    → All P (xs ++ x ∷ [])
All-snoc P [] x h p = (p, tt)
All-snoc P (y ∷ ys) x h p = (h.0, All-snoc P ys x h.1 p)

equals_sym : (a b : Address) → equals a b ≡ true → equals b a ≡ true
equals_sym a b h = equals_through a b a h (equals_refl a)

add_edge-IsGraph :
    (key : Address) (edge : GraphEdge) (g : RouteGraph)
    → IsGraph g
    → Leads key edge
    → IsGraph (add_edge key edge g)
unfolding add_edge
add_edge-IsGraph key edge [] h lead = ((lead, tt), tt)
add_edge-IsGraph key edge ((k, edges) ∷ rest) h lead =
    if_elim IsGraph (equals k key) _ _
      (λ same. (
        All-snoc (Leads k) edges edge h.0
            (Joins-at edge.pool key k edge.other_token (equals_sym k key same) lead),
        h.1,
      ))
      (λ _. (h.0, add_edge-IsGraph key edge rest h.1 lead))

add_pools-IsGraph :
    (ps : List UniswapV2Pair) (g : RouteGraph) → IsGraph g → IsGraph (add_pools ps g)
unfolding add_pools
add_pools-IsGraph [] g h = h
add_pools-IsGraph (p ∷ ps) g h = add_pools-IsGraph ps _ (
    add_edge-IsGraph p.token1.address _ _
      (add_edge-IsGraph p.token0.address _ g h (inl (equals_refl p.token0.address, refl)))
      (inr (equals_refl p.token1.address, refl)))

All-map :
    {P Q : GraphEdge → Type 0} (xs : List GraphEdge)
    → ((x : GraphEdge) → P x → Q x)
    → All P xs
    → All Q xs
All-map [] f h = tt
All-map (x ∷ xs) f h = (f x h.0, All-map xs f h.1)

edges-Leads : (a : Address) (g : RouteGraph) → IsGraph g → All (Leads a) (edges_at a g)
unfolding edges_at
edges-Leads a [] h = tt
edges-Leads a ((k, edges) ∷ rest) h =
    if_elim (All (Leads a)) (equals k a) _ _
      (λ same. All-map edges (λ e. Joins-at e.pool k a e.other_token same) h.0)
      (λ _. edges-Leads a rest h.1)

All-join : (P : Walk → Type 0) (xs ys : List Walk) → All P xs → All P ys → All P (xs ++ ys)
All-join P [] ys h k = k
All-join P (x ∷ xs) ys h k = (h.0, All-join P xs ys h.1 k)

explore-All :
    (P : Walk → Type 0) (token_out : Token) (deeper : Token → Walk → List Walk) (w : Walk)
    (Q : GraphEdge → Type 0) (edges : List GraphEdge)
    → All Q edges
    → ((edge : GraphEdge)
        → Q edge
        → has_pool edge.pool w.pools ≡ false
        → equals edge.other_token.address token_out.address ≡ true
        → P (extended w edge))
    → ((edge : GraphEdge)
        → Q edge
        → has_pool edge.pool w.pools ≡ false
        → All P (deeper edge.other_token (extended w edge)))
    → All P (explore token_out deeper w edges)
unfolding explore
explore-All P token_out deeper w Q [] h arrive onwards = tt
explore-All P token_out deeper w Q (edge ∷ edges) h arrive onwards =
    let later = explore-All P token_out deeper w Q edges h.1 arrive onwards in
    if_elim (All P) (has_pool edge.pool w.pools) _ _ (λ _. later)
      (λ fresh.
        if_elim (All P) (equals edge.other_token.address token_out.address) _ _
          (λ there. (arrive edge h.0 fresh there, later))
          (λ _.
            All-join P (deeper edge.other_token (extended w edge)) _ (onwards edge h.0 fresh)
              later))

-- A path from one token to another through at most `bound` pools.
abbrev pub Reaches : Token → Token → ℕ → Walk → Type 0
Reaches token_in token_out bound w =
    (last : Token) × SwapPath token_in w.pools w.path last
    × (equals last.address token_out.address ≡ true)
    × (length w.pools ≤ bound)

module _ (g : RouteGraph) (good : IsGraph g) (token_in token_out : Token) (bound : ℕ) where
  dfs-Reaches :
      (hops : ℕ) (current : Token) (w : Walk)
      → SwapPath token_in w.pools w.path current
      → length w.pools + hops + 1 ≤ bound
      → All (Reaches token_in token_out bound) (dfs g token_out hops current w)
  unfolding dfs
  dfs-Reaches zero current w path room =
      explore-All (Reaches token_in token_out bound) token_out _ w (Leads current.address) _
        (edges-Leads current.address g good)
        (λ edge lead fresh there. (
          edge.other_token,
          onward edge.pool path lead fresh,
          there,
          omega (arith, room, length-append w.pools (edge.pool ∷ [])),
        ))
        (λ edge lead fresh. tt)
  dfs-Reaches (suc hops) current w path room =
      explore-All (Reaches token_in token_out bound) token_out _ w (Leads current.address) _
        (edges-Leads current.address g good)
        (λ edge lead fresh there. (
          edge.other_token,
          onward edge.pool path lead fresh,
          there,
          omega (arith, room, length-append w.pools (edge.pool ∷ [])),
        ))
        (λ edge lead fresh.
          dfs-Reaches hops edge.other_token (extended w edge) (onward edge.pool path lead fresh)
            (omega (arith, room, length-append w.pools (edge.pool ∷ []))))

SwapPath-length :
    {start last : Token} {pools : List UniswapV2Pair} {path : List Token}
    → SwapPath start pools path last
    → length path ≡ length pools + 1
SwapPath-length here = omega arith
SwapPath-length (onward {pools} {path} {current} {next} pool p lead fresh) =
    omega
      (arith, SwapPath-length p, length-append path (next ∷ []), length-append pools (pool ∷ []))

-- What holds of a route from one token to another.
pub record IsRoute (token_in token_out : Token) (max_hops : ℕ) (r : Route) : Type 0 where
  pub last : Token
  pub path : SwapPath token_in r.pools r.path last
  pub arrives : equals last.address token_out.address ≡ true
  pub short : length r.pools ≤ suc (max_hops - 1)
  pub accepted : new_route r.pools r.path r.gas_base r.gas_per_hop ≡ ok r

same_number : (a b : ℕ) → a ≡ b → a == b ≡ true
same_number a b h = ground arith

routes-All :
    (r : RouteFinder) (token_in token_out : Token) (max_hops : ℕ) (ws : List Walk)
    → All (Reaches token_in token_out (suc (max_hops - 1))) ws
    → All (IsRoute token_in token_out max_hops) (map (route_of r) ws)
unfolding new_route
routes-All r token_in token_out max_hops [] h = tt
routes-All r token_in token_out max_hops (w ∷ ws) h =
    let (last, path, arrives, short) = h.0 in
    (
      record {
        last = last;
        path = path;
        arrives = arrives;
        short = short;
        accepted =
            if_true (length w.path == length w.pools + 1) _ _
              (same_number _ _ (SwapPath-length path));
      },
      routes-All r token_in token_out max_hops ws h.1,
    )

-- Every route that the search finds in a graph of its pools is a swap path: it starts at the first
-- token and ends at a token with the second one's address, each pool has the tokens before and
-- after it, no pool is used twice, there are at most as many pools as hops are allowed (at least
-- one), and the constructor of routes accepts it.
pub find_all_routes-IsRoute :
    (pools : List UniswapV2Pair) (gas_base gas_per_hop : ℤ) (token_in token_out : Token)
    (max_hops : ℕ)
    → All
        (IsRoute token_in token_out max_hops)
        (find_all_routes (new_finder pools gas_base gas_per_hop) token_in token_out max_hops)
unfolding find_all_routes new_finder build_graph
find_all_routes-IsRoute pools gas_base gas_per_hop token_in token_out max_hops =
    routes-All (new_finder pools gas_base gas_per_hop) token_in token_out max_hops _ (
      dfs-Reaches (add_pools pools []) (add_pools-IsGraph pools [] tt) token_in token_out
        (suc (max_hops - 1)) (max_hops - 1) token_in (record { pools = []; path = token_in ∷ [] })
        here (omega arith))
