-- ===== src/Pricing/Pair/Swaps.antt =====
-- uniswap-v2.service.ts: what a simulated swap does to the pool, and what a quote consists of.
use internship_project_peanu.Prelude.{
  ◌≡◌, refl, Bool, true, false, if◌then◌else◌, arith, inl, inr, subst,
}
use internship_project_peanu.Prelude.Int.{ℤ, pos, ◌+ℤ◌, ◌-ℤ◌, ◌*ℤ◌, ◌≤ℤ◌, ◌<ℤ◌, int_laws, *ℤ_comm}
use internship_project_peanu.Prelude.Result.{ok, err, unknown_token, ◌>>=◌, Result-cases}
use internship_project_peanu.Core.{Token, equals}
use internship_project_peanu.Pricing.Calculator
use internship_project_peanu.Pricing.Calculator.{apply_swap}
use internship_project_peanu.Pricing.Calculator.Bounds.{
  get_amount_out_bounds, get_amount_out_product,
}
use internship_project_peanu.Pricing.Pair.{
  UniswapV2Pair, resolve_reserves, other_token, get_amount_out, get_amount_in, get_spot_price,
  get_execution_price, get_price_impact_bps, after_swap, simulate_swap, quote,
}

-- Both reserves are positive and the fee is between 0 and 10000 bps.
pub record IsValid (p : UniswapV2Pair) : Type 0 where
  pub reserve0_pos : pos 0 <ℤ p.reserve0
  pub reserve1_pos : pos 0 <ℤ p.reserve1
  pub fee_nonneg : pos 0 ≤ℤ p.fee_bps
  pub fee_le : p.fee_bps ≤ℤ pos 10_000

-- What a swap may do to the pool: the new snapshot is valid, the product of the reserves has not
-- fallen, and the address, the tokens and the fee are the same.
pub record Swapped (p p' : UniswapV2Pair) : Type 0 where
  pub valid : IsValid p'
  pub product : p.reserve0 *ℤ p.reserve1 ≤ℤ p'.reserve0 *ℤ p'.reserve1
  pub address : p'.address ≡ p.address
  pub token0 : p'.token0 ≡ p.token0
  pub token1 : p'.token1 ≡ p.token1
  pub fee : p'.fee_bps ≡ p.fee_bps

-- The reserves in and out of a sale of the first token (`true`) or the second.
abbrev reserve_in : UniswapV2Pair → Bool → ℤ
reserve_in p side = if side then p.reserve0 else p.reserve1

abbrev reserve_out : UniswapV2Pair → Bool → ℤ
reserve_out p side = if side then p.reserve1 else p.reserve0

abbrev sells_token0 : UniswapV2Pair → Token → Bool
sells_token0 p t = equals t.address p.token0.address

get_amount_out-side :
    (p : UniswapV2Pair) (a : ℤ) (t : Token) {q : ℤ}
    → get_amount_out p a t ≡ ok q
    → let side = sells_token0 p t in
      Calculator.get_amount_out a (reserve_in p side) (reserve_out p side) p.fee_bps ≡ ok q
unfolding get_amount_out resolve_reserves
get_amount_out-side p a t e = ground arith

after_swap-Swapped :
    (p : UniswapV2Pair) (a q : ℤ) (side : Bool)
    → IsValid p
    → Calculator.get_amount_out a (reserve_in p side) (reserve_out p side) p.fee_bps ≡ ok q
    → Swapped p (after_swap p a q side)
unfolding apply_swap
after_swap-Swapped p a q true v e =
    let (q_nonneg, below, a_pos, _) =
      get_amount_out_bounds a p.reserve0 p.reserve1 p.fee_bps v.fee_nonneg v.fee_le e in
    record {
      valid = record {
        reserve0_pos = omega int_laws;
        reserve1_pos = omega int_laws;
        fee_nonneg = v.fee_nonneg;
        fee_le = v.fee_le;
      };
      product = get_amount_out_product a p.reserve0 p.reserve1 p.fee_bps v.fee_nonneg v.fee_le e;
      address = refl;
      token0 = refl;
      token1 = refl;
      fee = refl;
    }
after_swap-Swapped p a q false v e =
    let (q_nonneg, below, a_pos, _) =
      get_amount_out_bounds a p.reserve1 p.reserve0 p.fee_bps v.fee_nonneg v.fee_le e in
    record {
      valid = record {
        reserve0_pos = omega int_laws;
        reserve1_pos = omega int_laws;
        fee_nonneg = v.fee_nonneg;
        fee_le = v.fee_le;
      };
      product =
          rw (*ℤ_comm p.reserve0 p.reserve1, *ℤ_comm (p.reserve0 -ℤ q) (p.reserve1 +ℤ a))
            (get_amount_out_product a p.reserve1 p.reserve0 p.fee_bps v.fee_nonneg v.fee_le e);
      address = refl;
      token0 = refl;
      token1 = refl;
      fee = refl;
    }

-- A simulated swap on a valid pool that succeeds yields a valid pool whose product of reserves is
-- no smaller, with the address, the tokens and the fee as before.
pub simulate_swap-Swapped :
    (p : UniswapV2Pair) (a : ℤ) (t : Token) {p' : UniswapV2Pair}
    → IsValid p
    → simulate_swap p a t ≡ ok p'
    → Swapped p p'
unfolding simulate_swap
simulate_swap-Swapped p a t {p'} v e = elim (Result-cases (get_amount_out p a t)) [
  | inl (q, swapped) ↦
      let side = sells_token0 p t in
      let made : after_swap p a q side ≡ p' = cc (rw (swapped, ◌>>=◌) at e) in
      subst (Swapped p) made (after_swap-Swapped p a q side v (get_amount_out-side p a t swapped))
  | inr (x, failed) ↦ cc (rw (failed, ◌>>=◌) at e)
]

-- A quote is the four separate calls, in the code's order, with the same error when one fails.
pub quote-calls :
    (p : UniswapV2Pair) (a : ℤ) (t : Token)
    → quote p a t ≡ (do
      spot ← get_spot_price p t
      out ← get_amount_out p a t
      execution ← get_execution_price p a t
      impact ← get_price_impact_bps p a t
      ok (record {
        amount_out = out;
        spot_price_before = spot;
        execution_price = execution;
        price_impact_bps = impact;
      }))
unfolding quote get_execution_price get_price_impact_bps
quote-calls p a t = ground arith

-- A token that is neither of the pool's is refused by every method.
pub unknown_token_refused :
    (p : UniswapV2Pair) (a : ℤ) (t : Token)
    → equals t.address p.token0.address ≡ false
    → equals t.address p.token1.address ≡ false
    → (get_amount_out p a t ≡ err unknown_token)
      × (get_amount_in p a t ≡ err unknown_token)
      × (get_spot_price p t ≡ err unknown_token)
      × (simulate_swap p a t ≡ err unknown_token)
      × (quote p a t ≡ err unknown_token)
unfolding get_amount_out get_amount_in get_spot_price simulate_swap quote resolve_reserves
    other_token
unknown_token_refused p a t h k = rw (h, k) (refl, refl, refl, refl, refl)
