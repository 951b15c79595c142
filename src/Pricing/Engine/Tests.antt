-- ===== src/Pricing/Engine/Tests.antt =====
-- The theorem on the pricing engine, on two pools.
use internship_project_peanu.Prelude.{◌≡◌, refl, false, none, some, List, [], ◌∷◌}
use internship_project_peanu.Prelude.Int.{pos, ◌-ℤ◌, ◌*ℤ◌}
use internship_project_peanu.Prelude.Result.{ok, err, no_route_found}
use internship_project_peanu.Core.{Token, equals, lower, to_lower}
use internship_project_peanu.Pricing.Pair.{UniswapV2Pair}
use internship_project_peanu.Pricing.Routing.{Route}
use internship_project_peanu.Pricing.Engine.{
  PricingEngine, put_pool, load_pools, Quote, is_valid, set_pool, find_pool, on_sync,
}
use internship_project_peanu.Pricing.Engine.Current.{
  Update, load, refresh, sync, IsCurrent, AllAllowed, run, run-IsCurrent,
}

abbrev weth : Token
weth = record { address = record { value = "0xAa" }; symbol = "WETH"; decimals = 18 }

abbrev usdc : Token
usdc = record { address = record { value = "0xbB" }; symbol = "USDC"; decimals = 6 }

abbrev cheap : UniswapV2Pair
cheap = record {
  address = record { value = "0xF0" };
  token0 = weth;
  token1 = usdc;
  reserve0 = pos 1_000_000;
  reserve1 = pos 2_000_000;
  fee_bps = pos 30;
}

abbrev dear : UniswapV2Pair
dear = record cheap { address = record { value = "0xF1" }; reserve1 = pos 3_000_000 }

abbrev empty : PricingEngine
empty = record { pools = []; router = none; pool_monitor_running = false }

abbrev updates : List Update
updates =
    load (ok (cheap ∷ dear ∷ []))
    ∷ sync (record { value = "0xf0" }) (some (pos 1_100_000)) (some (pos 1_900_000))
    ∷ refresh (ok (record dear { reserve0 = pos 900_000 }))
    ∷ refresh (err no_route_found)
    ∷ []

updates-AllAllowed : AllAllowed updates empty
unfolding load_pools on_sync find_pool set_pool put_pool equals lower to_lower
updates-AllAllowed =
    (tt, (tt, ((refl, ((λ same. (refl, refl)), ((λ same. (refl, refl)), tt))), (tt, tt))))

run-IsCurrent_example : IsCurrent (run updates empty)
run-IsCurrent_example =
    run-IsCurrent updates empty updates-AllAllowed (record { unique = tt; rebuilt = tt })

abbrev route : Route
route = record { pools = []; path = weth ∷ []; gas_base = pos 150_000; gas_per_hop = pos 100_000 }

-- A simulated output that is one percent short is not valid.
abbrev quote : Quote
quote = record {
  route = route;
  amount_in = pos 1_000;
  expected_output = pos 10_000;
  simulated_output = pos 9_900;
  gas_estimate = pos 120_000;
  timestamp = 5;
  slippage_tolerance_bps = pos 100;
}

is_valid_test : is_valid quote ≡ false
unfolding is_valid ◌-ℤ◌ ◌*ℤ◌
is_valid_test = refl
