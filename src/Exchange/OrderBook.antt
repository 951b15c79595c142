-- ===== src/Exchange/OrderBook.antt =====
-- exchange/orderBook/orderBook.analyzer.ts: `OrderBookAnalyzer`, and `OrderBook` of
-- exchange.interfaces.ts with the fields that it reads. Quantities come in as numbers of type `D`.
pub mod Walk
use internship_project_peanu.Prelude.{
  ℕ, ◌+◌, Bool, true, false, ◌&&◌, List, [], ◌∷◌, ◌++◌, take, length, if◌then◌else◌,
}
use internship_project_peanu.Prelude.Int.{ℤ, pos, ◌+ℤ◌, ◌-ℤ◌, ◌*ℤ◌, ◌/ℤ◌, ltb_ℤ, leb_ℤ, eqb_ℤ}
use internship_project_peanu.Prelude.Double.{Double}
use internship_project_peanu.Core.{price_scale}
use internship_project_peanu.Inventory.Tracker.{Side, buy, sell}

-- `PriceLevel`: the price and the quantity.
abbrev pub Level : Type 0
Level = ℤ × ℤ

pub record OrderBook : Type 0 where
  pub bids : List Level
  pub asks : List Level
  pub best_bid : Level
  pub best_ask : Level
  pub mid_price : ℤ

pub record Fill : Type 0 where
  pub price : ℤ
  pub qty : ℤ
  pub cost : ℤ

pub record WalkResult : Type 0 where
  pub avg_price : ℤ
  pub total_cost : ℤ
  pub slippage_bps : ℤ
  pub levels_consumed : ℕ
  pub fully_filled : Bool
  pub fills : List Fill

-- The variables of the loop.
pub record Progress : Type 0 where
  pub remaining : ℤ
  pub total_cost : ℤ
  pub fills : List Fill

-- What a level fills of the remaining quantity.
abbrev pub fill_of : ℤ → Level → Fill
fill_of remaining (price, level_qty) =
    let filled = if ltb_ℤ remaining level_qty then remaining else level_qty in
    record { price = price; qty = filled; cost = (filled *ℤ price) /ℤ price_scale }

abbrev pub filled_at : Level → Progress → Progress
filled_at level p =
    let fill = fill_of p.remaining level in
    record {
      remaining = p.remaining -ℤ fill.qty;
      total_cost = p.total_cost +ℤ fill.cost;
      fills = p.fills ++ fill ∷ [];
    }

-- The loop, which stops once nothing remains.
unfoldable pub walk_levels : List Level → Progress → Progress
walk_levels [] p = p
walk_levels (level ∷ rest) p =
    let onward = walk_levels rest (filled_at level p) in
    if leb_ℤ p.remaining (pos 0) then p else onward

abbrev pub levels_of : Side → OrderBook → List Level
levels_of buy book = book.asks
levels_of sell book = book.bids

abbrev pub best_of : Side → OrderBook → ℤ
best_of buy book = book.best_ask.0
best_of sell book = book.best_bid.0

abbrev pub slip : Side → ℤ → ℤ → ℤ
slip buy avg best = ((avg -ℤ best) *ℤ pos 10_000) /ℤ best
slip sell avg best = ((best -ℤ avg) *ℤ pos 10_000) /ℤ best

unfoldable pub slippage : Side → ℤ → ℤ → ℤ
slippage side avg best =
    let raw = slip side avg best in
    if ltb_ℤ (pos 0) best && ltb_ℤ (pos 0) avg
    then (if ltb_ℤ raw (pos 0) then pos 0 else raw)
    else pos 0

-- From the scaled quantity on.
unfoldable pub walk_scaled : Side → ℤ → OrderBook → WalkResult
walk_scaled side target book =
    let p =
      walk_levels (levels_of side book)
        (record { remaining = target; total_cost = pos 0; fills = [] }) in
    let total_filled = target -ℤ p.remaining in
    let avg =
      if ltb_ℤ (pos 0) total_filled then (p.total_cost *ℤ price_scale) /ℤ total_filled else pos 0 in
    record {
      avg_price = avg;
      total_cost = p.total_cost;
      slippage_bps = slippage side avg (best_of side book);
      levels_consumed = length p.fills;
      fully_filled = leb_ℤ p.remaining (pos 0);
      fills = p.fills;
    }

abbrev pub in_range : Side → ℤ → ℤ → ℤ → Bool
in_range sell bps best price = leb_ℤ (best *ℤ (pos 10_000 -ℤ bps)) (price *ℤ pos 10_000)
in_range buy bps best price = leb_ℤ (price *ℤ pos 10_000) (best *ℤ (pos 10_000 +ℤ bps))

-- The loop of `depthAtBps`: the side is that of the one who trades, asks for a buyer.
unfoldable pub depth_from : Side → ℤ → ℤ → ℤ → List Level → ℤ
depth_from side bps best total [] = total
depth_from side bps best total ((price, qty) ∷ rest) =
    let onward = depth_from side bps best (total +ℤ qty) rest in
    if in_range side bps best price then onward else total

-- `reduce((sum, [, qty]) => sum + qty, 0n)`
unfoldable pub sum_qty : ℤ → List Level → ℤ
sum_qty acc [] = acc
sum_qty acc ((_, qty) ∷ rest) = sum_qty (acc +ℤ qty) rest

module _ {D : Type 0} (f : Double D) where
  open f use {of_ℤ, mul, quot, round}

  unfoldable pub walk_the_book : Side → D → OrderBook → WalkResult
  walk_the_book side qty book = walk_scaled side (round (mul qty (of_ℤ price_scale))) book

  unfoldable pub depth_at_bps : Side → D → OrderBook → ℤ
  depth_at_bps side bps book =
      depth_from side (round bps) (best_of side book) (pos 0) (levels_of side book)

  -- The default of `levels` is 10.
  unfoldable pub imbalance : ℕ → OrderBook → D
  imbalance levels book =
      let bid_qty = sum_qty (pos 0) (take levels book.bids) in
      let ask_qty = sum_qty (pos 0) (take levels book.asks) in
      let total = bid_qty +ℤ ask_qty in
      if eqb_ℤ total (pos 0) then of_ℤ (pos 0) else quot (of_ℤ (bid_qty -ℤ ask_qty)) (of_ℤ total)

  unfoldable pub effective_spread : D → OrderBook → ℤ
  effective_spread qty book =
      let buy_avg = (walk_the_book buy qty book).avg_price in
      let sell_avg = (walk_the_book sell qty book).avg_price in
      if eqb_ℤ book.mid_price (pos 0)
      then pos 0
      else if eqb_ℤ buy_avg (pos 0)
      then pos 0
      else if eqb_ℤ sell_avg (pos 0)
      then pos 0
      else ((buy_avg -ℤ sell_avg) *ℤ pos 10_000) /ℤ book.mid_price
