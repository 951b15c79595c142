-- ===== src/Pricing/Calculator.antt =====
-- pricing/uniswap-v2/uniswap-v2.calculator.ts: the constant-product formulas on bigints.
pub mod Bounds
pub mod RoundTrip
pub mod Impact
use internship_project_peanu.Prelude.{◌^◌, ◌≡◌, refl, Bool, true, false, ◌||◌, if◌then◌else◌}
use internship_project_peanu.Prelude.Int.{ℤ, pos, ◌+ℤ◌, ◌-ℤ◌, ◌*ℤ◌, ◌/ℤ◌, leb_ℤ}
use internship_project_peanu.Prelude.Result.{
  Result, ok, err, insufficient_liquidity, ◌>>=◌, ◌>>◌, throw_if, div,
}
use internship_project_peanu.Core.{Token, equals}

-- The calculator's own scale, 1e18.
abbrev pub price_scale : ℤ
price_scale = pos (10 ^ 18)

abbrev pub bps : ℤ
bps = pos 10_000

unfoldable pub get_amount_out : ℤ → ℤ → ℤ → ℤ → Result ℤ
get_amount_out amount_in reserve_in reserve_out fee_bps = do
  throw_if (leb_ℤ amount_in (pos 0)) (insufficient_liquidity "amountIn must be > 0")
  throw_if (leb_ℤ reserve_in (pos 0) || leb_ℤ reserve_out (pos 0))
      (insufficient_liquidity "Reserves must be > 0")
  let amount_in_with_fee = amount_in *ℤ (bps -ℤ fee_bps)
  let numerator = amount_in_with_fee *ℤ reserve_out
  let denominator = reserve_in *ℤ bps +ℤ amount_in_with_fee
  div numerator denominator

unfoldable pub get_amount_in : ℤ → ℤ → ℤ → ℤ → Result ℤ
get_amount_in amount_out reserve_in reserve_out fee_bps = do
  throw_if (leb_ℤ amount_out (pos 0)) (insufficient_liquidity "amountOut must be > 0")
  throw_if (leb_ℤ reserve_in (pos 0) || leb_ℤ reserve_out (pos 0))
      (insufficient_liquidity "Reserves must be > 0")
  throw_if (leb_ℤ reserve_out amount_out) (insufficient_liquidity "amountOut must be < reserveOut")
  let numerator = reserve_in *ℤ amount_out *ℤ bps
  let denominator = (reserve_out -ℤ amount_out) *ℤ (bps -ℤ fee_bps)
  quotient ← div numerator denominator
  ok (quotient +ℤ pos 1)

unfoldable pub get_spot_price : ℤ → ℤ → Result ℤ
get_spot_price reserve_in reserve_out = do
  throw_if (leb_ℤ reserve_in (pos 0)) (insufficient_liquidity "reserveIn must be > 0")
  throw_if (leb_ℤ reserve_out (pos 0)) (insufficient_liquidity "reserveOut must be > 0")
  ok ((reserve_out *ℤ price_scale) /ℤ reserve_in)

unfoldable pub get_execution_price : ℤ → ℤ → Result ℤ
get_execution_price amount_in amount_out = do
  throw_if (leb_ℤ amount_in (pos 0)) (insufficient_liquidity "amountIn must be > 0")
  throw_if (leb_ℤ amount_out (pos 0)) (insufficient_liquidity "amountOut must be > 0")
  ok ((amount_out *ℤ price_scale) /ℤ amount_in)

unfoldable pub get_price_impact_bps : ℤ → ℤ → Result ℤ
get_price_impact_bps spot_price execution_price = do
  throw_if (leb_ℤ spot_price (pos 0)) (insufficient_liquidity "spotPrice must be > 0")
  throw_if (leb_ℤ execution_price (pos 0)) (insufficient_liquidity "executionPrice must be > 0")
  ok (((spot_price -ℤ execution_price) *ℤ bps) /ℤ spot_price)

-- The new reserves, in and out; the inputs are not validated.
unfoldable pub apply_swap : ℤ → ℤ → ℤ → ℤ → ℤ × ℤ
apply_swap amount_in amount_out reserve_in reserve_out =
    (reserve_in +ℤ amount_in, reserve_out -ℤ amount_out)

-- The reserves as `reserveIn` and `reserveOut` for the token that is sold.
unfoldable pub resolve_reserves : Token → Token → ℤ → ℤ → ℤ × ℤ
resolve_reserves token_in token0 reserve0 reserve1 =
    if equals token_in.address token0.address then (reserve0, reserve1) else (reserve1, reserve0)
