-- ===== src/Strategy/Generator.antt =====
-- strategy/signal.generator.ts: `SignalGenerator`. The order book is given, as on
-- the WebSocket path; the AMM quote, the gas price and the random id are what the outside answers.
pub mod Emitted
pub mod Cooldown
pub mod Sizes
use internship_project_peanu.Prelude.{
  ℕ, zero, suc, ◌+◌, ◌-◌, ◌^◌, Bool, true, false, not, ◌&&◌, ◌||◌, Option, none, some, List, [],
  ◌∷◌, String, ltb, if◌then◌else◌,
}
use internship_project_peanu.Prelude.Int.{
  ℤ, pos, negsuc, ◌+ℤ◌, ◌-ℤ◌, ◌*ℤ◌, ◌/ℤ◌, ltb_ℤ, leb_ℤ, eqb_ℤ,
}
use internship_project_peanu.Prelude.Result.{Error, Result, ok, err, configuration, ◌>>=◌}
use internship_project_peanu.Prelude.Double.{Double}
use internship_project_peanu.Prelude.Dict
use internship_project_peanu.Prelude.Dict.{Dict}
use internship_project_peanu.Core.{Token, price_scale, ten_pow}
use internship_project_peanu.Inventory.Tracker.{
  InventoryTracker, binance, wallet, buy, sell, get_available,
}
use internship_project_peanu.Exchange.OrderBook.{OrderBook, walk_the_book}
use internship_project_peanu.Executor.Engine.Context.{split_pair}
use internship_project_peanu.Strategy.Signal.{Signal, Direction, buy_cex_sell_dex, buy_dex_sell_cex}
use internship_project_peanu.Strategy.Fees.{FeeCalculator, total_fee}
use internship_project_peanu.Strategy.Levels.{
  Choice, PriceLevels, at_least_two, best_prices, better, candidate_sizes, cex_choice, changed,
  choose, compute_prices_at, dex_choice, distance, estimate_net_pnl, gross_of, levels_at,
  prices_only, sizes_from, spread_of,
}

pub record SignalGenerator (D : Type 0) : Type 0 where
  pub inventory : InventoryTracker
  pub fees : FeeCalculator
  pub min_spread_bps : D
  pub trade_size_min : ℤ
  pub trade_size_max : ℤ
  pub trade_size_steps : ℕ
  pub min_profit : ℤ
  pub max_position : ℤ
  pub signal_ttl_ms : ℕ
  pub cooldown_ms : ℕ
  pub pair_tokens : Dict (Token × Token)
  pub swap_gas_units : ℤ
  pub last_signal_time : Dict ℕ
  pub last_logged_prices : Dict PriceLevels
  -- the cost in wei and when it was fetched
  pub gas_cache : Option (ℤ × ℕ)

-- What the outside answers in one call, with the readings of the clock.
pub record Market : Type 0 where
  pub book : OrderBook
  pub amm_quote : Option (Token → Token → ℤ → Result ℤ)
  -- the maximal fee in wei; nothing without a chain client
  pub max_fee_wei : Option (Result ℤ)
  pub signal_id : String
  pub cooldown_check : ℕ
  pub gas_check : ℕ
  pub gas_fetched : ℕ
  pub created : ℕ
  pub recorded : ℕ

abbrev pub time_or_zero : Option ℕ → ℕ
time_or_zero none = 0
time_or_zero (some t) = t

-- `Date.now() - last < cooldownMs`
unfoldable pub in_cooldown : {D : Type 0} → ℕ → String → SignalGenerator D → Bool
in_cooldown now pair g = ltb now (time_or_zero (Dict.get pair g.last_signal_time) + g.cooldown_ms)

module _ {D : Type 0} where
  unfoldable pub prices_changed : String → PriceLevels → SignalGenerator D → Bool
  prices_changed pair p g = changed p (Dict.get pair g.last_logged_prices)

  -- What is kept when no signal comes of the prices.
  abbrev pub note_prices : String → PriceLevels → SignalGenerator D → SignalGenerator D
  note_prices pair p g =
      if prices_changed pair p g
      then record g { last_logged_prices = Dict.put pair p g.last_logged_prices }
      else g

  unfoldable pub check_inventory : Direction → String → String → ℤ → ℤ → SignalGenerator D → Bool
  check_inventory direction base quote size cex_price g =
      let quote_needed = (size *ℤ cex_price *ℤ pos 101) /ℤ (price_scale *ℤ pos 100) in
      elim direction [
        | buy_cex_sell_dex ↦
            leb_ℤ quote_needed (get_available binance quote g.inventory)
            && leb_ℤ size (get_available wallet base g.inventory)
        | buy_dex_sell_cex ↦
            leb_ℤ quote_needed (get_available wallet quote g.inventory)
            && leb_ℤ size (get_available binance base g.inventory)
      ]

  abbrev pub fetched_gas : ℤ → ℕ → Result ℤ → SignalGenerator D → Option ℤ × SignalGenerator D
  fetched_gas eth_price now (err e) g = (none, g)
  fetched_gas eth_price now (ok fee) g =
      let wei = fee *ℤ g.swap_gas_units in
      (some ((wei *ℤ eth_price) /ℤ pos (10 ^ 18)), record g { gas_cache = some (wei, now) })

  abbrev pub cached_gas :
      Market → ℤ → Result ℤ → Option (ℤ × ℕ) → SignalGenerator D → Option ℤ × SignalGenerator D
  cached_gas m eth_price fee none g = fetched_gas eth_price m.gas_fetched fee g
  cached_gas m eth_price fee (some (value, ts)) g =
      if ltb m.gas_check (ts + 30_000)
      then (some ((value *ℤ eth_price) /ℤ pos (10 ^ 18)), g)
      else fetched_gas eth_price m.gas_fetched fee g

  abbrev pub live_gas :
      Market → ℤ → Option (Result ℤ) → SignalGenerator D → Option ℤ × SignalGenerator D
  live_gas m eth_price none g = (none, g)
  live_gas m eth_price (some fee) g =
      if eqb_ℤ eth_price (pos 0) then (none, g) else cached_gas m eth_price fee g.gas_cache g

  unfoldable pub fetch_live_gas_cost : Market → ℤ → SignalGenerator D → Option ℤ × SignalGenerator D
  fetch_live_gas_cost m eth_price g = live_gas m eth_price m.max_fee_wei g

module _ {D : Type 0} (f : Double D) where
  open f use {of_ℤ, mul, quot, lt, le}

  unfoldable pub find_best_prices :
      (Token → Token → ℤ → Result ℤ)
      → OrderBook
      → ℤ
      → Token × Token
      → SignalGenerator D
      → Result (Option PriceLevels)
  find_best_prices amm_quote book top_ask tokens g =
      best_prices (compute_prices_at f amm_quote book top_ask tokens) (estimate_net_pnl g.fees)
        (candidate_sizes g.trade_size_min g.trade_size_max g.trade_size_steps) none
      >>= λ best. ok (prices_only best)

  abbrev pub priced :
      OrderBook
      → ℤ
      → SignalGenerator D
      → Option (Token → Token → ℤ → Result ℤ)
      → Option (Token × Token)
      → Result (Option PriceLevels)
  priced book top_ask g none tokens = err (configuration "No DEX pricing available")
  priced book top_ask g (some amm_quote) none = err (configuration "No DEX pricing available")
  priced book top_ask g (some amm_quote) (some tokens) =
      find_best_prices amm_quote book top_ask tokens g

  unfoldable pub fetch_prices : Market → String → SignalGenerator D → Result (Option PriceLevels)
  fetch_prices m pair g =
      let top_ask = m.book.best_ask.0 in
      if eqb_ℤ top_ask (pos 0)
      then ok none
      else priced m.book top_ask g m.amm_quote (Dict.get pair g.pair_tokens)

  unfoldable pub signal_of :
      Market → String → PriceLevels → Choice D → ℤ → SignalGenerator D → Signal D
  signal_of m pair p c fee g =
      let gross = gross_of c.direction p.size c.cex_price c.dex_price in
      let net = gross -ℤ fee in
      let (base, quote) = split_pair pair in
      record {
        signal_id = m.signal_id;
        pair = pair;
        direction = c.direction;
        cex_price = c.cex_price;
        dex_price = c.dex_price;
        spread_bps = c.spread_bps;
        size = p.size;
        expected_gross_pnl = gross;
        expected_fees = fee;
        expected_net_pnl = net;
        score =
            if ltb_ℤ (pos 0) g.min_profit
            then quot (of_ℤ net) (of_ℤ g.min_profit)
            else quot (of_ℤ net) (of_ℤ price_scale);
        timestamp = m.created;
        expiry = m.created + g.signal_ttl_ms;
        inventory_ok = check_inventory c.direction base quote p.size c.cex_price g;
        within_limits = leb_ℤ ((p.size *ℤ c.cex_price) /ℤ price_scale) g.max_position;
      }

  -- A direction is chosen: fees, and a signal if the net profit is enough.
  unfoldable pub evaluate :
      Market
      → String
      → PriceLevels
      → Choice D
      → SignalGenerator D
      → Option (Signal D) × SignalGenerator D
  evaluate m pair p c g =
      let (gas, g') = fetch_live_gas_cost m p.cex_bid g in
      let fee = total_fee g.fees ((p.size *ℤ c.cex_price) /ℤ price_scale) gas in
      let signal = signal_of m pair p c fee g in
      if ltb_ℤ signal.expected_net_pnl g.min_profit
      then (none, note_prices pair p g')
      else (some signal, g')

  abbrev pub chosen :
      Market
      → String
      → PriceLevels
      → Option (Choice D)
      → SignalGenerator D
      → Option (Signal D) × SignalGenerator D
  chosen m pair p none g = (none, note_prices pair p g)
  chosen m pair p (some c) g = evaluate m pair p c g

  abbrev pub with_prices :
      Market
      → String
      → Result (Option PriceLevels)
      → SignalGenerator D
      → Result (Option (Signal D)) × SignalGenerator D
  with_prices m pair (err e) g = (err e, g)
  with_prices m pair (ok none) g = (ok none, g)
  with_prices m pair (ok (some p)) g =
      let (s, g') = chosen m pair p (choose f g.min_spread_bps p) g in (ok s, g')

  unfoldable pub generate_core :
      Market → String → SignalGenerator D → Result (Option (Signal D)) × SignalGenerator D
  generate_core m pair g = with_prices m pair (fetch_prices m pair g) g

  -- `peek` skips the cooldown, before and after.
  unfoldable pub peek :
      Market → String → SignalGenerator D → Result (Option (Signal D)) × SignalGenerator D
  peek m pair g = generate_core m pair g

  abbrev pub remember :
      Market
      → String
      → Result (Option (Signal D)) × SignalGenerator D
      → Result (Option (Signal D)) × SignalGenerator D
  remember m pair (err e, g) = (err e, g)
  remember m pair (ok none, g) = (ok none, g)
  remember m pair (ok (some s), g) =
      (ok (some s), record g { last_signal_time = Dict.put pair m.recorded g.last_signal_time })

  unfoldable pub generate :
      Market → String → SignalGenerator D → Result (Option (Signal D)) × SignalGenerator D
  generate m pair g =
      if in_cooldown m.cooldown_check pair g
      then (ok none, g)
      else remember m pair (generate_core m pair g)
