-- ===== src/Pricing/Pair.antt =====
-- pricing/uniswap-v2/uniswap-v2.service.ts: the immutable pool snapshot `UniswapV2Pair`.
pub mod Swaps
use internship_project_peanu.Prelude.{
  ◌≡◌, refl, Bool, true, false, not, ◌&&◌, if◌then◌else◌, List, [], ◌∷◌, ℕ,
}
use internship_project_peanu.Prelude.Int.{ℤ, pos}
use internship_project_peanu.Prelude.Result.{Result, ok, err, unknown_token, ◌>>=◌, ◌>>◌, throw_if}
use internship_project_peanu.Core.{Address, Token, equals}
use internship_project_peanu.Pricing.Calculator

pub record UniswapV2Pair : Type 0 where
  pub address : Address
  pub token0 : Token
  pub token1 : Token
  pub reserve0 : ℤ
  pub reserve1 : ℤ
  pub fee_bps : ℤ

-- `SwapResult`
pub record SwapResult : Type 0 where
  pub amount_out : ℤ
  pub spot_price_before : ℤ
  pub execution_price : ℤ
  pub price_impact_bps : ℤ

-- The private method `resolveReserves`: the reserves in and out for the token that is sold.
unfoldable pub resolve_reserves : UniswapV2Pair → Token → Result (ℤ × ℤ)
unfolding Calculator.resolve_reserves
resolve_reserves p token_in = do
  throw_if
      (not (equals token_in.address p.token0.address)
        && not (equals token_in.address p.token1.address))
      unknown_token
  ok (Calculator.resolve_reserves token_in p.token0 p.reserve0 p.reserve1)

unfoldable pub other_token : UniswapV2Pair → Token → Result Token
other_token p token =
    if equals token.address p.token0.address
    then ok p.token1
    else if equals token.address p.token1.address
    then ok p.token0
    else err unknown_token

unfoldable pub get_amount_out : UniswapV2Pair → ℤ → Token → Result ℤ
get_amount_out p amount_in token_in = do
  (reserve_in, reserve_out) ← resolve_reserves p token_in
  Calculator.get_amount_out amount_in reserve_in reserve_out p.fee_bps

unfoldable pub get_amount_in : UniswapV2Pair → ℤ → Token → Result ℤ
get_amount_in p amount_out token_out = do
  other ← other_token p token_out
  (reserve_in, reserve_out) ← resolve_reserves p other
  Calculator.get_amount_in amount_out reserve_in reserve_out p.fee_bps

unfoldable pub get_spot_price : UniswapV2Pair → Token → Result ℤ
get_spot_price p token_in = do
  (reserve_in, reserve_out) ← resolve_reserves p token_in
  Calculator.get_spot_price reserve_in reserve_out

unfoldable pub get_execution_price : UniswapV2Pair → ℤ → Token → Result ℤ
get_execution_price p amount_in token_in = do
  amount_out ← get_amount_out p amount_in token_in
  Calculator.get_execution_price amount_in amount_out

unfoldable pub get_price_impact_bps : UniswapV2Pair → ℤ → Token → Result ℤ
get_price_impact_bps p amount_in token_in = do
  spot ← get_spot_price p token_in
  exec ← get_execution_price p amount_in token_in
  Calculator.get_price_impact_bps spot exec

abbrev after_swap : UniswapV2Pair → ℤ → ℤ → Bool → UniswapV2Pair
after_swap p amount_in amount_out true =
    let (new_reserve0, new_reserve1) =
      Calculator.apply_swap amount_in amount_out p.reserve0 p.reserve1 in
    record p { reserve0 = new_reserve0; reserve1 = new_reserve1 }
after_swap p amount_in amount_out false =
    let (new_reserve1, new_reserve0) =
      Calculator.apply_swap amount_in amount_out p.reserve1 p.reserve0 in
    record p { reserve0 = new_reserve0; reserve1 = new_reserve1 }

unfoldable pub simulate_swap : UniswapV2Pair → ℤ → Token → Result UniswapV2Pair
simulate_swap p amount_in token_in = do
  amount_out ← get_amount_out p amount_in token_in
  ok (after_swap p amount_in amount_out (equals token_in.address p.token0.address))

unfoldable pub quote : UniswapV2Pair → ℤ → Token → Result SwapResult
quote p amount_in token_in = do
  spot_price_before ← get_spot_price p token_in
  amount_out ← get_amount_out p amount_in token_in
  execution_price ← Calculator.get_execution_price amount_in amount_out
  price_impact_bps ← Calculator.get_price_impact_bps spot_price_before execution_price
  ok (record {
    amount_out = amount_out;
    spot_price_before = spot_price_before;
    execution_price = execution_price;
    price_impact_bps = price_impact_bps;
  })
