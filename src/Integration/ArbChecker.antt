-- ===== src/Integration/ArbChecker.antt =====
-- integration/arbChecker/: `ArbChecker.check`. The order book that the exchange answers is given.
pub mod Covered
mod Tests
use internship_project_peanu.Prelude.{
  ℕ, ◌+◌, Bool, true, false, not, ◌&&◌, ◌||◌, Option, none, some, List, [], ◌∷◌, String, str_eq,
  if◌then◌else◌,
}
use internship_project_peanu.Prelude.Int.{ℤ, pos, ◌+ℤ◌, ◌-ℤ◌, ◌*ℤ◌, ◌/ℤ◌, ltb_ℤ}
use internship_project_peanu.Prelude.Result.{
  Error, Result, ok, err, unknown_pair, pair_config, div, ◌>>=◌,
}
use internship_project_peanu.Prelude.Double.{Double}
use internship_project_peanu.Prelude.Dict
use internship_project_peanu.Prelude.Dict.{Dict}
use internship_project_peanu.Core.{Token, price_scale, ten_pow}
use internship_project_peanu.Pricing.Pair.{UniswapV2Pair, get_amount_out, get_price_impact_bps}
use internship_project_peanu.Exchange.OrderBook.{OrderBook, walk_the_book}
use internship_project_peanu.Inventory.Tracker.{
  InventoryTracker, Venue, buy, sell, CanExecuteResult, can_execute,
}
use internship_project_peanu.Strategy.Signal.{
  Signal, Direction, buy_cex_sell_dex, buy_dex_sell_cex, is_buy_dex,
}

pub record PairConfig (D : Type 0) : Type 0 where
  pub pair : String
  pub base_asset : String
  pub quote_asset : String
  pub inventory_base_asset : Option String
  pub inventory_quote_asset : Option String
  pub pool : UniswapV2Pair
  pub trade_size : ℤ
  pub dex_fee_bps : D
  pub cex_fee_bps : D
  pub gas_cost_usd : D
  pub dex_venue : Venue
  pub cex_venue : Venue

pub record ArbCostDetails (D : Type 0) : Type 0 where
  pub dex_fee_bps : D
  pub dex_price_impact_bps : D
  pub cex_fee_bps : D
  pub cex_slippage_bps : D
  pub gas_cost_usd : D
  pub total_cost_bps : D

pub record ArbInventoryDetails : Type 0 where
  pub quote_venue : Venue
  pub quote_asset : String
  pub quote_available : ℤ
  pub quote_needed : ℤ
  pub base_venue : Venue
  pub base_asset : String
  pub base_available : ℤ
  pub base_needed : ℤ

pub record ArbCheckResult (D : Type 0) : Type 0 where
  pub pair : String
  pub timestamp : ℕ
  pub dex_price : ℤ
  pub cex_bid : ℤ
  pub cex_ask : ℤ
  pub gap_bps : D
  pub direction : Option Direction
  pub details : ArbCostDetails D
  pub estimated_costs_bps : D
  pub estimated_net_pnl_bps : D
  pub inventory_ok : Bool
  pub inventory_details : ArbInventoryDetails
  pub executable : Bool

-- `a ?? b`
abbrev pub or_asset : Option String → String → String
or_asset none asset = asset
or_asset (some a) asset = a

-- The base and the quote token of the pool.
unfoldable pub pool_tokens : String → UniswapV2Pair → Result (Token × Token)
pool_tokens base p =
    if str_eq p.token0.symbol base
    then ok (p.token0, p.token1)
    else if str_eq p.token1.symbol base
    then ok (p.token1, p.token0)
    else err pair_config

-- What the pool answers for the trade: the price per unit of base, and the impact.
unfoldable pub dex_prices : ℤ → Token × Token → UniswapV2Pair → Result (ℤ × ℤ)
dex_prices size (base, quote) p =
    let amount_in = (size *ℤ ten_pow base.decimals) /ℤ price_scale in
    get_amount_out p amount_in base >>= λ out. get_price_impact_bps p amount_in base >>= λ impact.
    div (((out *ℤ price_scale) /ℤ ten_pow quote.decimals) *ℤ price_scale) size >>= λ price.
    ok (price, impact)

abbrev pub buys_cex : Option Direction → Bool
buys_cex none = false
buys_cex (some d) = not (is_buy_dex d)

module _ {D : Type 0} where
  abbrev pub quote_venue_of : Option Direction → PairConfig D → Venue
  quote_venue_of d c = if buys_cex d then c.cex_venue else c.dex_venue

  abbrev pub base_venue_of : Option Direction → PairConfig D → Venue
  base_venue_of d c = if buys_cex d then c.dex_venue else c.cex_venue

  abbrev pub inventory_base : PairConfig D → String
  inventory_base c = or_asset c.inventory_base_asset c.base_asset

  abbrev pub inventory_quote : PairConfig D → String
  inventory_quote c = or_asset c.inventory_quote_asset c.quote_asset

  abbrev pub inventory_check :
      Option Direction → ℤ → PairConfig D → InventoryTracker → CanExecuteResult
  inventory_check d dex_price c t =
      can_execute (quote_venue_of d c) (inventory_quote c)
        ((c.trade_size *ℤ dex_price) /ℤ price_scale) (base_venue_of d c) (inventory_base c)
        c.trade_size t

-- The direction, the gap and the slippage.
pub record Gap (D : Type 0) : Type 0 where
  pub direction : Option Direction
  pub gap_bps : D
  pub slippage_bps : D

module _ {D : Type 0} (f : Double D) where
  open f use {of_ℤ, add, sub, mul, quot, lt, le, round}

  abbrev pub zero_bps : D
  zero_bps = of_ℤ (pos 0)

  -- `(Number(sold - bought) / Number(bought)) * 10_000`, for a price that is positive
  unfoldable pub gap_between : ℤ → ℤ → D
  gap_between bought sold =
      if ltb_ℤ (pos 0) bought
      then mul (quot (of_ℤ (sold -ℤ bought)) (of_ℤ bought)) (of_ℤ (pos 10_000))
      else zero_bps

  abbrev pub trade_size_num : ℤ → D
  trade_size_num size = quot (of_ℤ size) (of_ℤ price_scale)

  unfoldable pub gap_of : ℤ → ℤ → OrderBook → Gap D
  gap_of size dex_price book =
      let buy_cex = gap_between dex_price book.best_bid.0 in
      let buy_dex = gap_between book.best_ask.0 dex_price in
      let qty = trade_size_num size in
      if lt zero_bps buy_cex && le buy_dex buy_cex
      then record {
        direction = some buy_dex_sell_cex;
        gap_bps = buy_cex;
        slippage_bps = of_ℤ (walk_the_book f sell qty book).slippage_bps;
      }
      else if lt zero_bps buy_dex
      then record {
        direction = some buy_cex_sell_dex;
        gap_bps = buy_dex;
        slippage_bps = of_ℤ (walk_the_book f buy qty book).slippage_bps;
      }
      else record { direction = none; gap_bps = zero_bps; slippage_bps = zero_bps }

  unfoldable pub total_cost : ℤ → Gap D → PairConfig D → OrderBook → D
  total_cost impact g c book =
      let mid = quot (of_ℤ book.mid_price) (of_ℤ price_scale) in
      let gas =
        if lt zero_bps mid
        then mul (quot c.gas_cost_usd (mul mid (trade_size_num c.trade_size))) (of_ℤ (pos 10_000))
        else zero_bps in
      add (add (add (add c.dex_fee_bps (of_ℤ impact)) c.cex_fee_bps) g.slippage_bps) gas

  -- From the gap and the costs on.
  abbrev pub result_with :
      String
      → ℕ
      → ℤ × ℤ
      → Gap D
      → D
      → OrderBook
      → InventoryTracker
      → PairConfig D
      → ArbCheckResult D
  result_with pair now (dex_price, impact) g cost book t c =
      let net = sub g.gap_bps cost in
      let inventory = inventory_check g.direction dex_price c t in
      record {
        pair = pair;
        timestamp = now;
        dex_price = dex_price;
        cex_bid = book.best_bid.0;
        cex_ask = book.best_ask.0;
        gap_bps = g.gap_bps;
        direction = g.direction;
        details = record {
          dex_fee_bps = c.dex_fee_bps;
          dex_price_impact_bps = of_ℤ impact;
          cex_fee_bps = c.cex_fee_bps;
          cex_slippage_bps = g.slippage_bps;
          gas_cost_usd = c.gas_cost_usd;
          total_cost_bps = cost;
        };
        estimated_costs_bps = cost;
        estimated_net_pnl_bps = net;
        inventory_ok = inventory.can_execute;
        inventory_details = record {
          quote_venue = quote_venue_of g.direction c;
          quote_asset = inventory_quote c;
          quote_available = inventory.buy_venue_available;
          quote_needed = inventory.buy_venue_needed;
          base_venue = base_venue_of g.direction c;
          base_asset = inventory_base c;
          base_available = inventory.sell_venue_available;
          base_needed = inventory.sell_venue_needed;
        };
        executable = inventory.can_execute && lt zero_bps net;
      }

  unfoldable pub result_of :
      String → ℕ → ℤ × ℤ → OrderBook → InventoryTracker → PairConfig D → ArbCheckResult D
  result_of pair now (dex_price, impact) book t c =
      let g = gap_of c.trade_size dex_price book in
      result_with pair now (dex_price, impact) g (total_cost impact g c book) book t c

  abbrev pub check_config :
      String
      → ℕ
      → Result OrderBook
      → InventoryTracker
      → Option (PairConfig D)
      → Result (ArbCheckResult D)
  check_config pair now fetched t none = err unknown_pair
  check_config pair now fetched t (some c) = pool_tokens c.base_asset c.pool >>= λ tokens.
      dex_prices c.trade_size tokens c.pool >>= λ prices.
      fetched >>= λ book. ok (result_of pair now prices book t c)

  -- `pairs` is the map of the constructor, keyed by the pair.
  unfoldable pub check :
      ℕ
      → Result OrderBook
      → InventoryTracker
      → Dict (PairConfig D)
      → String
      → Result (ArbCheckResult D)
  check now fetched t pairs pair = check_config pair now fetched t (Dict.get pair pairs)
