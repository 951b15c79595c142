-- ===== src/Pricing/Routing.antt =====
-- pricing/routing/: `Route`, `RouteFinder`. The graph's keys are compared as the lower-case texts of
-- addresses are. The depth-first search recurses on the hops that are still allowed.
pub mod Found
pub mod Best
pub mod Rebuilt
mod Tests
use internship_project_peanu.Prelude.{
  ℕ, zero, suc, ◌+◌, ◌-◌, ◌==◌, Bool, true, false, not, ◌||◌, List, [], ◌∷◌, ◌++◌, map, length,
  if◌then◌else◌,
}
use internship_project_peanu.Prelude.Int.{ℤ, pos, ◌+ℤ◌, ◌-ℤ◌, ◌*ℤ◌, ◌/ℤ◌, ltb_ℤ}
use internship_project_peanu.Prelude.Result.{Result, ok, err, invalid_route, no_route_found, ◌>>=◌}
use internship_project_peanu.Core.{Address, Token, equals}
use internship_project_peanu.Pricing.Calculator
use internship_project_peanu.Pricing.Pair.{UniswapV2Pair, get_amount_out}

pub record Route : Type 0 where
  pub pools : List UniswapV2Pair
  pub path : List Token
  pub gas_base : ℤ
  pub gas_per_hop : ℤ

-- The constructor.
unfoldable pub new_route : List UniswapV2Pair → List Token → ℤ → ℤ → Result Route
new_route pools path gas_base gas_per_hop =
    if length path == length pools + 1
    then ok (record { pools = pools; path = path; gas_base = gas_base; gas_per_hop = gas_per_hop })
    else err invalid_route

-- The loop of `getOutput`; the constructor rules out a path that is too short.
unfoldable pub output_from : List UniswapV2Pair → List Token → ℤ → Result ℤ
output_from [] path amount = ok amount
output_from (pool ∷ pools) [] amount = err invalid_route
output_from (pool ∷ pools) (token ∷ path) amount =
    get_amount_out pool amount token >>= λ out. output_from pools path out

unfoldable pub get_output : Route → ℤ → Result ℤ
get_output r amount_in = output_from r.pools r.path amount_in

-- The loop of `getIntermediateAmounts`: the amounts after the given one.
unfoldable pub amounts_from : List UniswapV2Pair → List Token → ℤ → Result (List ℤ)
amounts_from [] path amount = ok []
amounts_from (pool ∷ pools) [] amount = err invalid_route
amounts_from (pool ∷ pools) (token ∷ path) amount = get_amount_out pool amount token >>= λ out.
    amounts_from pools path out >>= λ rest. ok (out ∷ rest)

unfoldable pub get_intermediate_amounts : Route → ℤ → Result (List ℤ)
get_intermediate_amounts r amount_in =
    amounts_from r.pools r.path amount_in >>= λ rest. ok (amount_in ∷ rest)

unfoldable pub estimate_gas : Route → ℤ
estimate_gas r = r.gas_base +ℤ pos (length r.pools) *ℤ r.gas_per_hop

pub record GraphEdge : Type 0 where
  pub pool : UniswapV2Pair
  pub other_token : Token

abbrev pub RouteGraph : Type 0
RouteGraph = List (Address × List GraphEdge)

-- `graph.get(key) ?? []`
unfoldable pub edges_at : Address → RouteGraph → List GraphEdge
edges_at key [] = []
edges_at key ((k, edges) ∷ rest) =
    let later = edges_at key rest in if equals k key then edges else later

unfoldable pub add_edge : Address → GraphEdge → RouteGraph → RouteGraph
add_edge key edge [] = (key, edge ∷ []) ∷ []
add_edge key edge ((k, edges) ∷ rest) =
    let later = add_edge key edge rest in
    if equals k key then (k, edges ++ edge ∷ []) ∷ rest else (k, edges) ∷ later

unfoldable pub add_pools : List UniswapV2Pair → RouteGraph → RouteGraph
add_pools [] g = g
add_pools (p ∷ ps) g = add_pools ps (
    add_edge p.token1.address (record { pool = p; other_token = p.token0 })
      (add_edge p.token0.address (record { pool = p; other_token = p.token1 }) g))

unfoldable pub build_graph : List UniswapV2Pair → RouteGraph
build_graph pools = add_pools pools []

pub record RouteFinder : Type 0 where
  pub pools : List UniswapV2Pair
  pub graph : RouteGraph
  pub gas_base : ℤ
  pub gas_per_hop : ℤ

unfoldable pub new_finder : List UniswapV2Pair → ℤ → ℤ → RouteFinder
new_finder pools gas_base gas_per_hop = record {
  pools = pools;
  graph = build_graph pools;
  gas_base = gas_base;
  gas_per_hop = gas_per_hop;
}

-- `updatePool`: the first pool with the address, and every edge of such a pool.
unfoldable pub replace_first : UniswapV2Pair → List UniswapV2Pair → List UniswapV2Pair
replace_first updated [] = []
replace_first updated (p ∷ ps) =
    let later = replace_first updated ps in
    if equals p.address updated.address then updated ∷ ps else p ∷ later

abbrev pub has_pool : UniswapV2Pair → List UniswapV2Pair → Bool
has_pool updated [] = false
has_pool updated (p ∷ ps) = equals p.address updated.address || has_pool updated ps

abbrev pub refresh_edge : UniswapV2Pair → GraphEdge → GraphEdge
refresh_edge updated edge =
    if equals edge.pool.address updated.address
    then record { pool = updated; other_token = edge.other_token }
    else edge

unfoldable pub update_pool : UniswapV2Pair → RouteFinder → RouteFinder
update_pool updated r = if not (has_pool updated r.pools) then r else record r {
  pools = replace_first updated r.pools;
  graph = map (λ entry. (entry.0, map (refresh_edge updated) entry.1)) r.graph;
}

-- Where the search stands: the pools and the path so far; a pool is visited when its address is
-- that of one of the pools.
pub record Walk : Type 0 where
  pub pools : List UniswapV2Pair
  pub path : List Token

abbrev pub extended : Walk → GraphEdge → Walk
extended w edge = record {
  pools = w.pools ++ edge.pool ∷ [];
  path = w.path ++ edge.other_token ∷ [];
}

-- The loop over the edges of a token; `deeper` is the search from the other end of an edge.
unfoldable pub explore : Token → (Token → Walk → List Walk) → Walk → List GraphEdge → List Walk
explore token_out deeper w [] = []
explore token_out deeper w (edge ∷ edges) =
    let later = explore token_out deeper w edges in
    if has_pool edge.pool w.pools
    then later
    else if equals edge.other_token.address token_out.address
    then extended w edge ∷ later
    else deeper edge.other_token (extended w edge) ++ later

-- `dfs`, with the number of hops that may follow the next one.
unfoldable pub dfs : RouteGraph → Token → ℕ → Token → Walk → List Walk
dfs g token_out zero current w = explore token_out (λ next w'. []) w (edges_at current.address g)
dfs g token_out (suc hops) current w =
    explore token_out (dfs g token_out hops) w (edges_at current.address g)

abbrev pub route_of : RouteFinder → Walk → Route
route_of r w = record {
  pools = w.pools;
  path = w.path;
  gas_base = r.gas_base;
  gas_per_hop = r.gas_per_hop;
}

-- The default of `maxHops` is 3.
unfoldable pub find_all_routes : RouteFinder → Token → Token → ℕ → List Route
find_all_routes r token_in token_out max_hops =
    map (route_of r)
      (dfs r.graph token_out (max_hops - 1) token_in (record { pools = []; path = token_in ∷ [] }))

unfoldable pub net_output : Route → ℤ → ℤ → ℤ → Result ℤ
net_output r amount_in gas_price_gwei eth_price = get_output r amount_in >>= λ gross.
    let gas_cost_eth = gas_price_gwei *ℤ pos 1_000_000_000 *ℤ estimate_gas r in
    let gas_cost = (gas_cost_eth *ℤ eth_price) /ℤ Calculator.price_scale in
    ok (if ltb_ℤ gas_cost gross then gross -ℤ gas_cost else pos 0)

-- The loop over the other routes; `best` is the best so far with its net output.
unfoldable pub best_from : (Route → Result ℤ) → List Route → Route × ℤ → Result (Route × ℤ)
best_from net [] best = ok best
best_from net (r ∷ rs) best =
    net r >>= λ n. best_from net rs (if ltb_ℤ best.1 n then (r, n) else best)

abbrev pub best_of : (Route → Result ℤ) → List Route → Result (Route × ℤ)
best_of net [] = err no_route_found
best_of net (r ∷ rs) = net r >>= λ n. best_from net rs (r, n)

unfoldable pub find_best_route : RouteFinder → Token → Token → ℤ → ℤ → ℕ → ℤ → Result (Route × ℤ)
find_best_route r token_in token_out amount_in gas_price_gwei max_hops eth_price =
    best_of (λ route. net_output route amount_in gas_price_gwei eth_price)
      (find_all_routes r token_in token_out max_hops)
