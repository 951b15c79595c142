-- ===== src/Executor/Engine/Legs.antt =====
-- engine.service.ts: `executeCexLeg`, `executeDexLeg`, `resolvePairTokens`, `parseSwapOutput`. Each
-- leg is the requests that it sends and its result.
use internship_project_peanu.Prelude.{
  ℕ, ◌/◌, Bool, true, not, ◌&&◌, Option, none, some, List, [], ◌∷◌, reverse, String, str_eq,
  if◌then◌else◌,
}
use internship_project_peanu.Prelude.Int.{ℤ, pos, ◌+ℤ◌, ◌-ℤ◌, ◌*ℤ◌, ◌/ℤ◌, ltb_ℤ, eqb_ℤ}
use internship_project_peanu.Prelude.Result.{
  Result, ok, err, ◌>>=◌, div, configuration, stale_quote,
}
use internship_project_peanu.Prelude.Double.{Double}
use internship_project_peanu.Prelude.Dict
use internship_project_peanu.Prelude.Dict.{Dict}
use internship_project_peanu.Core.{Address, Token, equals, price_scale, ten_pow}
use internship_project_peanu.Strategy.Signal.{Signal, Direction, buy_cex_sell_dex, buy_dex_sell_cex}
use internship_project_peanu.Exchange.Rounding.{
  TradingRules, round_quantity, round_price, check_min_notional,
}
use internship_project_peanu.Inventory.Tracker.{Side, buy, sell}
use internship_project_peanu.Executor.Engine.Context.{
  Executor, Clients, Request, Swap, LegResult, Log, OrderResult, Quote, failed_leg, limit_ioc_order,
  swap, size_rounded_to_zero, below_min_notional, order_status, no_transfer_log,
}

abbrev pub cex_price_buffer_bps : ℤ
cex_price_buffer_bps = pos 10

-- `DEFAULT_DEADLINE_OFFSET`
abbrev pub default_deadline_offset : ℤ
default_deadline_offset = pos 300

abbrev pub rounded_quantity : Option TradingRules → ℤ → ℤ
rounded_quantity none size = size
rounded_quantity (some rules) size = round_quantity size rules.step_size

abbrev pub rounded_price : Option TradingRules → ℤ → ℤ
rounded_price none price = price
rounded_price (some rules) price = round_price price rules.tick_size

abbrev pub notional_ok : Option TradingRules → ℤ → ℤ → Bool
notional_ok none size price = true
notional_ok (some rules) size price = check_min_notional size price rules.min_notional

abbrev pub cex_side : Direction → Side
cex_side buy_cex_sell_dex = buy
cex_side buy_dex_sell_cex = sell

abbrev pub opposite : Side → Side
opposite buy = sell
opposite sell = buy

abbrev pub limit_price : Side → ℤ → ℤ
limit_price buy price = (price *ℤ (pos 10_000 +ℤ cex_price_buffer_bps)) /ℤ pos 10_000
limit_price sell price = (price *ℤ (pos 10_000 -ℤ cex_price_buffer_bps)) /ℤ pos 10_000

abbrev pub leg_of_order : OrderResult → LegResult
leg_of_order order = record {
  success = ltb_ℤ (pos 0) order.amount_filled;
  price = order.avg_fill_price;
  filled = order.amount_filled;
  error = if eqb_ℤ order.amount_filled (pos 0) then some (order_status order.status) else none;
}

module _ {D : Type 0} (f : Double D) where
  -- `Number(x) / PRICE_SCALE_NUM`
  abbrev pub unscaled : ℤ → D
  unscaled x = f.quot (f.of_ℤ x) (f.of_ℤ price_scale)

  unfoldable pub execute_cex_leg :
      Executor → Clients D → Signal D → ℤ → List (Request D) × Result LegResult
  execute_cex_leg e c signal size =
      let side = cex_side signal.direction in
      let rules = Dict.get signal.pair e.trading_rules in
      let adjusted_size = rounded_quantity rules size in
      let adjusted_price = rounded_price rules (limit_price side signal.cex_price) in
      let size_num = unscaled adjusted_size in
      let price_num = unscaled adjusted_price in
      if e.simulation_mode
      then (
        [],
        ok (record {
          success = true;
          price = (signal.cex_price *ℤ pos 10_001) /ℤ pos 10_000;
          filled = size;
          error = none;
        }),
      )
      else if eqb_ℤ adjusted_size (pos 0)
      then ([], ok (failed_leg size_rounded_to_zero))
      else if not (notional_ok rules adjusted_size adjusted_price)
      then ([], ok (failed_leg below_min_notional))
      else (
        limit_ioc_order signal.pair side size_num price_num ∷ [],
        c.create_limit_ioc_order signal.pair side size_num price_num >>= λ order.
            ok (leg_of_order order),
      )

-- `[tokenIn, tokenOut]`
abbrev pub oriented : Direction → Token × Token → Token × Token
oriented buy_cex_sell_dex (base, quote) = (base, quote)
oriented buy_dex_sell_cex (base, quote) = (quote, base)

abbrev pub entry_tokens : Direction → Option (Token × Token) → Result (Token × Token)
entry_tokens d none = err (configuration "No token mapping found for pair")
entry_tokens d (some entry) = ok (oriented d entry)

abbrev pub resolve_in : Direction → String → Option (Dict (Token × Token)) → Result (Token × Token)
resolve_in d pair none = err (configuration "pairTokens not set in ExecutorConfig")
resolve_in d pair (some tokens) = entry_tokens d (Dict.get pair tokens)

unfoldable pub resolve_pair_tokens : {D : Type 0} → Executor → Signal D → Result (Token × Token)
resolve_pair_tokens e signal = resolve_in signal.direction signal.pair e.pair_tokens

-- The value of a transfer to the recipient, zero for none or for a log that cannot be decoded.
abbrev pub value_to : Address → Option (Address × ℤ) → Option ℤ
value_to recipient none = none
value_to recipient (some (to, value)) = if equals to recipient then some value else none

abbrev pub or_else : Option ℤ → ℤ → ℤ
or_else none d = d
or_else (some v) d = v

-- The loop over the logs, which are in reverse order.
unfoldable pub last_transfer : {D : Type 0} → Clients D → Token → Address → List Log → ℤ
last_transfer c token_out recipient [] = pos 0
last_transfer c token_out recipient (log ∷ rest) =
    let later = last_transfer c token_out recipient rest in
    if not (equals log.address token_out.address)
    then later
    else if not (str_eq log.topic c.transfer_topic)
    then later
    else or_else (value_to recipient (c.decode_event_log log)) later

unfoldable pub parse_swap_output : {D : Type 0} → Clients D → List Log → Token → Address → ℤ
parse_swap_output c logs token_out recipient = last_transfer c token_out recipient (reverse logs)

-- The swap's fill price: quote for base, each in its own decimals.
abbrev pub swap_price : Direction → ℤ → Token → ℤ → Token → Result ℤ
swap_price buy_dex_sell_cex amount_in token_in amount_out token_out =
    if ltb_ℤ (pos 0) amount_out
    then div (amount_in *ℤ ten_pow token_out.decimals *ℤ price_scale)
        (amount_out *ℤ ten_pow token_in.decimals)
    else ok (pos 0)
swap_price buy_cex_sell_dex amount_in token_in amount_out token_out =
    if ltb_ℤ (pos 0) amount_in
    then div (amount_out *ℤ ten_pow token_in.decimals *ℤ price_scale)
        (amount_in *ℤ ten_pow token_out.decimals)
    else ok (pos 0)

abbrev pub amount_in_native : Direction → ℤ → ℤ → Token → ℤ
amount_in_native buy_dex_sell_cex size dex_price token_in =
    (size *ℤ dex_price *ℤ ten_pow token_in.decimals) /ℤ (price_scale *ℤ price_scale)
amount_in_native buy_cex_sell_dex size dex_price token_in =
    (size *ℤ ten_pow token_in.decimals) /ℤ price_scale

-- The more conservative of the two outputs, less the slippage.
abbrev pub amount_out_min : ℤ → Quote → ℤ
amount_out_min slippage_bps quote =
    let conservative =
      if ltb_ℤ quote.simulated_output quote.expected_output
      then quote.simulated_output
      else quote.expected_output in
    (conservative *ℤ (pos 10_000 -ℤ slippage_bps)) /ℤ pos 10_000

abbrev pub deadline_at : ℕ → ℤ
deadline_at now = pos (now / 1_000) +ℤ default_deadline_offset

module _ {D : Type 0} where
  -- The swap that the leg decides on: tokens, gas price, quote, floor.
  unfoldable pub planned_swap : Executor → Clients D → ℕ → Signal D → ℤ → Result Swap
  planned_swap e c now signal size = resolve_pair_tokens e signal >>= λ tokens.
      let amount_in = amount_in_native signal.direction size signal.dex_price tokens.0 in
      c.base_fee >>= λ base_fee.
      c.get_quote tokens.0 tokens.1 amount_in (base_fee /ℤ pos 1_000_000_000) c.sender >>= λ quote.
      if not quote.is_valid
      then err stale_quote
      else ok (record {
        amount_in = amount_in;
        amount_out_min = amount_out_min e.dex_slippage_bps quote;
        token_in = tokens.0;
        token_out = tokens.1;
        deadline = deadline_at now;
      })

  -- What the receipt's logs say of the swap.
  unfoldable pub settled_swap : Clients D → Direction → ℤ → Swap → List Log → Result LegResult
  settled_swap c direction size s logs =
      let amount_out = parse_swap_output c logs s.token_out c.sender in
      if eqb_ℤ amount_out (pos 0)
      then ok (failed_leg no_transfer_log)
      else swap_price direction s.amount_in s.token_in amount_out s.token_out >>= λ price.
          ok (record { success = true; price = price; filled = size; error = none })

  abbrev pub sent_swap :
      Clients D → Direction → ℤ → Result Swap → List (Request D) × Result LegResult
  sent_swap c direction size (err e) = ([], err e)
  sent_swap c direction size (ok s) =
      (swap s ∷ [], c.send_and_wait s >>= λ logs. settled_swap c direction size s logs)

  unfoldable pub execute_dex_leg :
      Executor → Clients D → ℕ → Signal D → ℤ → List (Request D) × Result LegResult
  execute_dex_leg e c now signal size =
      if e.simulation_mode
      then (
        [],
        ok (record {
          success = true;
          price = (signal.dex_price *ℤ pos 9_998) /ℤ pos 10_000;
          filled = size;
          error = none;
        }),
      )
      else if not (c.has_pricing_engine && c.has_chain)
      then (
        [],
        err (configuration "Real DEX execution requires pricingEngine, chainClient, and wallet"),
      )
      else sent_swap c signal.direction size (planned_swap e c now signal size)
