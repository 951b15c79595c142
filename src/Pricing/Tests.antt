-- ===== src/Pricing/Tests.antt =====
-- The pricing theorems at a pool of 1000 WETH and 2,000,000 USDC, fee 30 bps.
use internship_project_peanu.Prelude.{◌≡◌, refl, arith}
use internship_project_peanu.Prelude.Int.{ℤ, pos, ◌+ℤ◌, ◌-ℤ◌, ◌*ℤ◌, ◌/ℤ◌, ◌≤ℤ◌}
use internship_project_peanu.Prelude.Result.{Result, ok}
use internship_project_peanu.Core.{Token, equals}
use internship_project_peanu.Pricing.Calculator
use internship_project_peanu.Pricing.Calculator.Bounds.{get_amount_out_product}
use internship_project_peanu.Pricing.Calculator.RoundTrip.{get_amount_out-get_amount_in}
use internship_project_peanu.Pricing.Pair
use internship_project_peanu.Pricing.Pair.{UniswapV2Pair, SwapResult}
use internship_project_peanu.Pricing.Impact.{find_max_size_for_impact}

abbrev weth : Token
weth = record { address = record { value = "0xAa" }; symbol = "WETH"; decimals = 18 }

abbrev usdc : Token
usdc = record { address = record { value = "0xbB" }; symbol = "USDC"; decimals = 6 }

abbrev dai : Token
dai = record { address = record { value = "0xcc" }; symbol = "DAI"; decimals = 18 }

abbrev pool : UniswapV2Pair
pool = record {
  address = record { value = "0xF0" };
  token0 = weth;
  token1 = usdc;
  reserve0 = pos 1_000_000_000_000_000_000_000;
  reserve1 = pos 2_000_000_000_000;
  fee_bps = pos 30;
}

abbrev one_weth : ℤ
one_weth = pos 1_000_000_000_000_000_000

get_amount_out_product_example :
    pool.reserve0 *ℤ pool.reserve1
    ≤ℤ (pool.reserve0 +ℤ one_weth) *ℤ (pool.reserve1 -ℤ pos 1_992_013_962)
unfolding Calculator.get_amount_out Calculator.apply_swap ◌*ℤ◌ ◌-ℤ◌ ◌+ℤ◌ ◌/ℤ◌
get_amount_out_product_example =
    get_amount_out_product one_weth pool.reserve0 pool.reserve1 pool.fee_bps (omega arith)
      (omega arith) refl

get_amount_out-get_amount_in_example :
    (q : ℤ) × (Calculator.get_amount_out
        (pos 999_999_999_959_896_868)
        pool.reserve0
        pool.reserve1
        pool.fee_bps
      ≡ ok q)
    × (pos 1_992_013_962 ≤ℤ q)
unfolding Calculator.get_amount_in ◌*ℤ◌ ◌-ℤ◌ ◌+ℤ◌ ◌/ℤ◌
get_amount_out-get_amount_in_example =
    get_amount_out-get_amount_in (pos 1_992_013_962) pool.reserve0 pool.reserve1 pool.fee_bps
      (omega arith) (omega arith) refl

-- What the tests run; to unfold it is to unfold the code that they call.
swapped : Result UniswapV2Pair
unfolding Pair.simulate_swap Pair.quote Pair.resolve_reserves Pair.get_amount_out
    Pair.get_spot_price Pair.get_execution_price Pair.get_price_impact_bps Calculator.apply_swap
    Calculator.get_amount_out Calculator.get_spot_price Calculator.get_execution_price
    Calculator.get_price_impact_bps equals ◌*ℤ◌ ◌-ℤ◌ ◌+ℤ◌ ◌/ℤ◌
swapped = Pair.simulate_swap pool one_weth weth

quote_test :
    Pair.quote pool one_weth weth
    ≡ ok (record {
      amount_out = pos 1_992_013_962;
      spot_price_before = pos 2_000_000_000;
      execution_price = pos 1_992_013_962;
      price_impact_bps = pos 39;
    })
unfolding swapped
quote_test = refl

abbrev pool_after : UniswapV2Pair
pool_after = record pool {
  reserve0 = pos 1_001_000_000_000_000_000_000;
  reserve1 = pos 1_998_007_986_038;
}

-- A pool of 5 and 900, on which the loop takes a few rounds.
abbrev shallow : UniswapV2Pair
shallow = record pool { reserve0 = pos 50; reserve1 = pos 900_000 }

max_size_test : find_max_size_for_impact shallow weth (pos 1000) ≡ ok (pos 5)
unfolding swapped find_max_size_for_impact
max_size_test = refl

-- 1 WETH into the pool of 1000 WETH and 2,000,000 USDC.
amount_out_test :
    Calculator.get_amount_out
      (pos 1_000_000_000_000_000_000)
      (pos 1_000_000_000_000_000_000_000)
      (pos 2_000_000_000_000)
      (pos 30)
    ≡ ok (pos 1_992_013_962)
unfolding Calculator.get_amount_out ◌*ℤ◌ ◌-ℤ◌ ◌+ℤ◌ ◌/ℤ◌
amount_out_test = refl
