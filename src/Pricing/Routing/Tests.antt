-- ===== src/Pricing/Routing/Tests.antt =====
-- The routing theorems on two pools.
use internship_project_peanu.Prelude.{◌≡◌, refl, [], ◌∷◌, All}
use internship_project_peanu.Prelude.Int.{pos, ◌+ℤ◌, ◌-ℤ◌, ◌*ℤ◌, ◌/ℤ◌}
use internship_project_peanu.Prelude.Result.{ok}
use internship_project_peanu.Core.{Token, equals, lower}
use internship_project_peanu.Pricing.Calculator
use internship_project_peanu.Pricing.Pair.{UniswapV2Pair, get_amount_out, resolve_reserves}
use internship_project_peanu.Pricing.Routing.{
  Route, RouteFinder, new_finder, build_graph, add_pools, add_edge, edges_at, explore, dfs,
  find_all_routes, find_best_route, best_from, net_output, get_output, output_from, estimate_gas,
}
use internship_project_peanu.Pricing.Routing.Found.{IsRoute, find_all_routes-IsRoute}
use internship_project_peanu.Pricing.Routing.Best.{OneOf, AtMost, find_best_route_maximal}

abbrev weth : Token
weth = record { address = record { value = "0xAa" }; symbol = "WETH"; decimals = 18 }

abbrev usdc : Token
usdc = record { address = record { value = "0xbB" }; symbol = "USDC"; decimals = 6 }

abbrev cheap : UniswapV2Pair
cheap = record {
  address = record { value = "0xF0" };
  token0 = weth;
  token1 = usdc;
  reserve0 = pos 1_000_000;
  reserve1 = pos 2_000_000;
  fee_bps = pos 30;
}

abbrev dear : UniswapV2Pair
dear = record cheap { address = record { value = "0xF1" }; reserve1 = pos 3_000_000 }

abbrev finder : RouteFinder
finder = new_finder (cheap ∷ dear ∷ []) (pos 150_000) (pos 100_000)

find_all_routes-IsRoute_example :
    All
      (IsRoute weth usdc 3)
      (find_all_routes (new_finder (cheap ∷ dear ∷ []) (pos 150_000) (pos 100_000)) weth usdc 3)
find_all_routes-IsRoute_example =
    find_all_routes-IsRoute (cheap ∷ dear ∷ []) (pos 150_000) (pos 100_000) weth usdc 3

abbrev best : Route
best = record {
  pools = dear ∷ [];
  path = weth ∷ usdc ∷ [];
  gas_base = pos 150_000;
  gas_per_hop = pos 100_000;
}

found : find_best_route finder weth usdc (pos 10_000) (pos 0) 3 (pos 1) ≡ ok (best, pos 29_614)
unfolding find_best_route find_all_routes new_finder build_graph add_pools add_edge edges_at explore
    dfs best_from net_output get_output output_from estimate_gas get_amount_out resolve_reserves
    Calculator.get_amount_out Calculator.resolve_reserves equals lower ◌+ℤ◌ ◌-ℤ◌ ◌*ℤ◌ ◌/ℤ◌
found = refl

find_best_route_maximal_example :
    let routes = find_all_routes finder weth usdc 3 in
    let net = λ (route : Route). net_output route (pos 10_000) (pos 0) (pos 1) in
    OneOf best routes × (net best ≡ ok (pos 29_614)) × AtMost net (pos 29_614) routes
find_best_route_maximal_example =
    find_best_route_maximal finder weth usdc (pos 10_000) (pos 0) 3 (pos 1) (best, pos 29_614) found
