-- ===== src/Pricing/Impact.antt =====
-- pricing/uniswap-v2/uniswap-v2.analyzer.ts: `PriceImpactAnalyzer`. The search of
-- `findMaxSizeForImpact` takes fuel; one more than the reserve is enough.
pub mod Search
use internship_project_peanu.Prelude.{ℕ, zero, suc, Bool, true, false, List, [], ◌∷◌, if◌then◌else◌}
use internship_project_peanu.Prelude.Int.{ℤ, pos, ◌+ℤ◌, ◌-ℤ◌, ◌*ℤ◌, ◌/ℤ◌, pos_part, ltb_ℤ, leb_ℤ}
use internship_project_peanu.Prelude.Result.{Result, ok, err, out_of_fuel, ◌>>=◌}
use internship_project_peanu.Core.{Token, equals}
use internship_project_peanu.Pricing.Calculator
use internship_project_peanu.Pricing.Pair
use internship_project_peanu.Pricing.Pair.{UniswapV2Pair}

-- `ImpactRow`
pub record ImpactRow : Type 0 where
  pub amount_in : ℤ
  pub amount_out : ℤ
  pub spot_price_before : ℤ
  pub execution_price : ℤ
  pub price_impact_bps : ℤ

impact_row : UniswapV2Pair → Token → ℤ → Result ImpactRow
impact_row p token_in amount_in = do
  q ← Pair.quote p amount_in token_in
  ok (record {
    amount_in = amount_in;
    amount_out = q.amount_out;
    spot_price_before = q.spot_price_before;
    execution_price = q.execution_price;
    price_impact_bps = q.price_impact_bps;
  })

-- `sizes.map(…)`: the first quote that throws ends it.
unfoldable pub generate_impact_table : UniswapV2Pair → Token → List ℤ → Result (List ImpactRow)
unfolding impact_row
generate_impact_table p token_in [] = ok []
generate_impact_table p token_in (size ∷ sizes) = do
  row ← impact_row p token_in size
  rows ← generate_impact_table p token_in sizes
  ok (row ∷ rows)

-- The `while (lo < hi)` loop.
search : UniswapV2Pair → Token → ℤ → ℕ → ℤ → ℤ → Result ℤ
search p token_in max_impact_bps zero lo hi = err out_of_fuel
search p token_in max_impact_bps (suc fuel) lo hi = elim (ltb_ℤ lo hi) [
  | true ↦ do
    let mid = (lo +ℤ hi +ℤ pos 1) /ℤ pos 2
    impact ← Pair.get_price_impact_bps p mid token_in
    let fits = leb_ℤ impact max_impact_bps
    search p token_in max_impact_bps fuel (if fits then mid else lo)
        (if fits then hi else mid -ℤ pos 1)
  | false ↦ ok lo
]

abbrev pub reserve_of : UniswapV2Pair → Token → ℤ
reserve_of p token_in = if equals token_in.address p.token0.address then p.reserve0 else p.reserve1

unfoldable pub find_max_size_for_impact : UniswapV2Pair → Token → ℤ → Result ℤ
unfolding search
find_max_size_for_impact p token_in max_impact_bps = do
  impact ← Pair.get_price_impact_bps p (pos 1) token_in
  let reserve_in = reserve_of p token_in
  let found = search p token_in max_impact_bps (suc (pos_part reserve_in)) (pos 1) reserve_in
  if ltb_ℤ max_impact_bps impact then ok (pos 0) else found

-- `TrueCostResult`
pub record TrueCostResult : Type 0 where
  pub gross_output : ℤ
  pub gas_cost_eth : ℤ
  pub gas_cost_in_output_token : ℤ
  pub net_output : ℤ
  pub effective_price : ℤ

unfoldable pub estimate_true_cost : UniswapV2Pair → ℤ → Token → ℤ → ℤ → ℤ → Result TrueCostResult
estimate_true_cost p amount_in token_in gas_price_gwei gas_estimate eth_price_in_output_token = do
  gross_output ← Pair.get_amount_out p amount_in token_in
  let gas_cost_eth = gas_price_gwei *ℤ pos 1_000_000_000 *ℤ gas_estimate
  let gas_cost_in_output_token =
      (gas_cost_eth *ℤ eth_price_in_output_token) /ℤ Calculator.price_scale
  let net_output =
      if ltb_ℤ gas_cost_in_output_token gross_output
      then gross_output -ℤ gas_cost_in_output_token
      else pos 0
  effective_price ←
      if ltb_ℤ (pos 0) net_output
      then Calculator.get_execution_price amount_in net_output
      else ok (pos 0)
  ok (record {
    gross_output = gross_output;
    gas_cost_eth = gas_cost_eth;
    gas_cost_in_output_token = gas_cost_in_output_token;
    net_output = net_output;
    effective_price = effective_price;
  })
