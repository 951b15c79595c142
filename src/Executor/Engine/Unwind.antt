-- ===== src/Executor/Engine/Unwind.antt =====
-- engine.service.ts: `unwind` and `unwindDexLeg`. Both are the requests that they send, and the
-- error that they throw, if any, which `execute` only logs.
use internship_project_peanu.Prelude.{
  ℕ, Bool, true, false, not, Option, none, some, List, [], ◌∷◌, if◌then◌else◌,
}
use internship_project_peanu.Prelude.Int.{ℤ, pos, ◌-ℤ◌, ◌*ℤ◌, ◌/ℤ◌, eqb_ℤ}
use internship_project_peanu.Prelude.Result.{Error, Result, ok, err, unwind_failed}
use internship_project_peanu.Prelude.Double.{Double}
use internship_project_peanu.Prelude.Dict
use internship_project_peanu.Core.{Token, price_scale, ten_pow}
use internship_project_peanu.Strategy.Signal.{Signal, Direction, buy_cex_sell_dex, buy_dex_sell_cex}
use internship_project_peanu.Executor.Engine.Context.{
  Executor, ExecutionContext, Clients, LegVenue, cex, dex, Request, Swap, market_order, unwind_swap,
}
use internship_project_peanu.Executor.Engine.Legs.{
  rounded_quantity, cex_side, opposite, unscaled, resolve_pair_tokens, deadline_at, or_else,
}

abbrev pub unwind_slippage_bps : ℤ
unwind_slippage_bps = pos 500

-- Base units in the token's decimals, and their quote value at a price.
abbrev pub base_native : ℤ → Token → ℤ
base_native size token = (size *ℤ ten_pow token.decimals) /ℤ price_scale

abbrev pub quote_native : ℤ → ℤ → Token → ℤ
quote_native size price token =
    (size *ℤ price *ℤ ten_pow token.decimals) /ℤ (price_scale *ℤ price_scale)

abbrev pub unwind_amount_in : Direction → ℤ → ℤ → Token → ℤ
unwind_amount_in buy_dex_sell_cex size price token_in = base_native size token_in
unwind_amount_in buy_cex_sell_dex size price token_in = quote_native size price token_in

abbrev pub unwind_expected_out : Direction → ℤ → ℤ → Token → ℤ
unwind_expected_out buy_dex_sell_cex size price token_out = quote_native size price token_out
unwind_expected_out buy_cex_sell_dex size price token_out = base_native size token_out

-- A request, and the error that its failure becomes.
abbrev pub attempt : {A D : Type 0} → Request D → Result A → List (Request D) × Option Error
attempt request (ok answer) = (request ∷ [], none)
attempt request (err e) = (request ∷ [], some unwind_failed)

module _ {D : Type 0} where
  -- `tokens` are those of the trade, which the unwinding swaps back.
  unfoldable pub unwind_swap_of : ℕ → Signal D → ℤ → ℤ → Token × Token → Swap
  unwind_swap_of now signal fill_size fill_price (token_in, token_out) = record {
    amount_in = unwind_amount_in signal.direction fill_size fill_price token_out;
    amount_out_min =
        (unwind_expected_out signal.direction fill_size fill_price token_in
          *ℤ (pos 10_000 -ℤ unwind_slippage_bps))
        /ℤ pos 10_000;
    token_in = token_out;
    token_out = token_in;
    deadline = deadline_at now;
  }

  abbrev pub unwind_tokens :
      Clients D → ℕ → Signal D → ℤ → ℤ → Result (Token × Token) → List (Request D) × Option Error
  unwind_tokens c now signal fill_size fill_price (err e) = ([], some e)
  unwind_tokens c now signal fill_size fill_price (ok tokens) =
      let s = unwind_swap_of now signal fill_size fill_price tokens in
      if eqb_ℤ s.amount_in (pos 0) then ([], none) else attempt (unwind_swap s) (c.send_and_wait s)

  unfoldable pub unwind_dex_leg :
      Executor → Clients D → ℕ → ExecutionContext D → ℤ → List (Request D) × Option Error
  unwind_dex_leg e c now ctx fill_size =
      if not c.has_chain
      then ([], some unwind_failed)
      else unwind_tokens c now ctx.signal fill_size (or_else ctx.leg1_fill_price (pos 0))
          (resolve_pair_tokens e ctx.signal)

abbrev pub is_dex : Option LegVenue → Bool
is_dex (some dex) = true
is_dex (some cex) = false
is_dex none = false

module _ {D : Type 0} (f : Double D) where
  -- Selling back what leg 1 bought at the exchange, or buying back what it sold.
  unfoldable pub unwind_cex_leg :
      Executor → Clients D → ExecutionContext D → ℤ → List (Request D) × Option Error
  unwind_cex_leg e c ctx fill_size =
      let signal = ctx.signal in
      let adjusted_fill = rounded_quantity (Dict.get signal.pair e.trading_rules) fill_size in
      let size_num = unscaled f adjusted_fill in
      let side = opposite (cex_side signal.direction) in
      if eqb_ℤ adjusted_fill (pos 0)
      then ([], none)
      else attempt (market_order signal.pair side size_num)
          (c.create_market_order signal.pair side size_num)

  abbrev pub unwind_filled :
      Executor → Clients D → ℕ → ExecutionContext D → Option ℤ → List (Request D) × Option Error
  unwind_filled e c now ctx none = ([], none)
  unwind_filled e c now ctx (some fill_size) =
      if eqb_ℤ fill_size (pos 0)
      then ([], none)
      else if is_dex ctx.leg1_venue
      then unwind_dex_leg e c now ctx fill_size
      else unwind_cex_leg e c ctx fill_size

  unfoldable pub unwind :
      Executor → Clients D → ℕ → ExecutionContext D → List (Request D) × Option Error
  unwind e c now ctx =
      if e.simulation_mode then ([], none) else unwind_filled e c now ctx ctx.leg1_fill_size
