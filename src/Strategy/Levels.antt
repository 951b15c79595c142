-- ===== src/Strategy/Levels.antt =====
-- strategy/signal.generator.ts: `PriceLevels`, and the parts of `SignalGenerator` that compute
-- prices, candidate sizes and the better direction from what they are given.
use internship_project_peanu.Prelude.{
  ℕ, zero, suc, ◌+◌, ◌-◌, Bool, true, not, ◌&&◌, ◌||◌, Option, none, some, List, [], ◌∷◌, ltb,
  if◌then◌else◌,
}
use internship_project_peanu.Prelude.Int.{
  ℤ, pos, negsuc, ◌+ℤ◌, ◌-ℤ◌, ◌*ℤ◌, ◌/ℤ◌, ltb_ℤ, leb_ℤ, eqb_ℤ,
}
use internship_project_peanu.Prelude.Result.{Result, ok, ◌>>=◌}
use internship_project_peanu.Prelude.Double.{Double}
use internship_project_peanu.Core.{Token, price_scale, ten_pow}
use internship_project_peanu.Inventory.Tracker.{buy, sell}
use internship_project_peanu.Exchange.OrderBook.{OrderBook, walk_the_book}
use internship_project_peanu.Strategy.Signal.{Direction, buy_cex_sell_dex, buy_dex_sell_cex}
use internship_project_peanu.Strategy.Fees.{FeeCalculator, total_fee}

pub record PriceLevels : Type 0 where
  pub cex_bid : ℤ
  pub cex_ask : ℤ
  pub dex_buy_price : ℤ
  pub dex_sell_price : ℤ
  pub size : ℤ

unfoldable pub sizes_from : ℤ → ℤ → ℕ → ℕ → ℕ → List ℤ
sizes_from low range last zero i = []
sizes_from low range last (suc count) i =
    (low +ℤ (range *ℤ pos i) /ℤ pos last) ∷ sizes_from low range last count (i + 1)

-- `Math.max(2, steps)`
abbrev pub at_least_two : ℕ → ℕ
at_least_two n = if ltb n 2 then 2 else n

unfoldable pub candidate_sizes : ℤ → ℤ → ℕ → List ℤ
candidate_sizes low high steps =
    let n = at_least_two steps in
    if eqb_ℤ low high then low ∷ [] else sizes_from low (high -ℤ low) (n - 1) n 0

-- Without the live gas cost. Gross profits that are not positive count as -1.
unfoldable pub estimate_net_pnl : FeeCalculator → PriceLevels → ℤ
estimate_net_pnl fees p =
    let buy_cex =
      if ltb_ℤ p.cex_ask p.dex_sell_price
      then (p.size *ℤ (p.dex_sell_price -ℤ p.cex_ask)) /ℤ price_scale
      else negsuc 0 in
    let buy_dex =
      if ltb_ℤ p.dex_buy_price p.cex_bid
      then (p.size *ℤ (p.cex_bid -ℤ p.dex_buy_price)) /ℤ price_scale
      else negsuc 0 in
    let gross = if ltb_ℤ buy_dex buy_cex then buy_cex else buy_dex in
    if leb_ℤ gross (pos 0)
    then negsuc 0
    else gross -ℤ total_fee fees ((p.size *ℤ p.cex_ask) /ℤ price_scale) none

abbrev pub better :
    (PriceLevels → ℤ) → Option PriceLevels → Option (PriceLevels × ℤ) → Option (PriceLevels × ℤ)
better estimate none best = best
better estimate (some p) none = some (p, estimate p)
better estimate (some p) (some (b, n)) =
    if ltb_ℤ n (estimate p) then some (p, estimate p) else some (b, n)

-- The loop of `findBestPrices`.
unfoldable pub best_prices :
    (ℤ → Result (Option PriceLevels))
    → (PriceLevels → ℤ)
    → List ℤ
    → Option (PriceLevels × ℤ)
    → Result (Option (PriceLevels × ℤ))
best_prices compute estimate [] best = ok best
best_prices compute estimate (s ∷ ss) best =
    compute s >>= λ o. best_prices compute estimate ss (better estimate o best)

abbrev pub distance : ℤ → ℤ → ℤ
distance a b = if ltb_ℤ b a then a -ℤ b else b -ℤ a

abbrev pub changed : PriceLevels → Option PriceLevels → Bool
changed p none = true
changed p (some q) =
    ltb_ℤ (pos 100) (distance p.cex_bid q.cex_bid)
    || ltb_ℤ (pos 100) (distance p.cex_ask q.cex_ask)
    || ltb_ℤ (pos 100) (distance p.dex_buy_price q.dex_buy_price)
    || ltb_ℤ (pos 100) (distance p.dex_sell_price q.dex_sell_price)

abbrev pub prices_only : Option (PriceLevels × ℤ) → Option PriceLevels
prices_only none = none
prices_only (some (p, n)) = some p

-- What the better direction trades at.
pub record Choice (D : Type 0) : Type 0 where
  pub direction : Direction
  pub spread_bps : D
  pub cex_price : ℤ
  pub dex_price : ℤ

abbrev pub gross_of : Direction → ℤ → ℤ → ℤ → ℤ
gross_of buy_cex_sell_dex size cex_price dex_price =
    (size *ℤ (dex_price -ℤ cex_price)) /ℤ price_scale
gross_of buy_dex_sell_cex size cex_price dex_price =
    (size *ℤ (cex_price -ℤ dex_price)) /ℤ price_scale

module _ {D : Type 0} (f : Double D) where
  open f use {of_ℤ, mul, quot, lt, le}

  abbrev pub spread_of : ℤ → ℤ → D
  spread_of bought sold =
      if ltb_ℤ (pos 0) bought
      then quot (mul (of_ℤ (sold -ℤ bought)) (of_ℤ (pos 10_000))) (of_ℤ bought)
      else of_ℤ (pos 0)

  abbrev pub cex_choice : PriceLevels → Choice D
  cex_choice p = record {
    direction = buy_cex_sell_dex;
    spread_bps = spread_of p.cex_ask p.dex_sell_price;
    cex_price = p.cex_ask;
    dex_price = p.dex_sell_price;
  }

  abbrev pub dex_choice : PriceLevels → Choice D
  dex_choice p = record {
    direction = buy_dex_sell_cex;
    spread_bps = spread_of p.dex_buy_price p.cex_bid;
    cex_price = p.cex_bid;
    dex_price = p.dex_buy_price;
  }

  unfoldable pub choose : D → PriceLevels → Option (Choice D)
  choose min_spread p =
      let buy_cex = spread_of p.cex_ask p.dex_sell_price in
      let buy_dex = spread_of p.dex_buy_price p.cex_bid in
      if lt buy_dex buy_cex && le min_spread buy_cex
      then some (cex_choice p)
      else if le min_spread buy_dex
      then some (dex_choice p)
      else none

  -- From the filled walks on.
  unfoldable pub levels_at :
      (Token → Token → ℤ → Result ℤ) → ℤ → ℤ → ℤ → Token × Token → Result (Option PriceLevels)
  levels_at amm_quote size cex_bid cex_ask (base, quote) =
      let base_amount_in = (size *ℤ ten_pow base.decimals) /ℤ price_scale in
      let quote_amount = (size *ℤ cex_bid) /ℤ price_scale in
      let quote_amount_in = (quote_amount *ℤ ten_pow quote.decimals) /ℤ price_scale in
      amm_quote base quote base_amount_in >>= λ quote_received.
      amm_quote quote base quote_amount_in >>= λ base_received.
      let quote_scaled = (quote_received *ℤ price_scale) /ℤ ten_pow quote.decimals in
      let base_scaled = (base_received *ℤ price_scale) /ℤ ten_pow base.decimals in
      ok (
        some (record {
          cex_bid = cex_bid;
          cex_ask = cex_ask;
          dex_buy_price =
              if ltb_ℤ (pos 0) base_scaled
              then (quote_amount *ℤ price_scale) /ℤ base_scaled
              else pos 0;
          dex_sell_price =
              if ltb_ℤ (pos 0) size then (quote_scaled *ℤ price_scale) /ℤ size else pos 0;
          size = size;
        }))

  -- `topAsk` is not zero where this is called.
  unfoldable pub compute_prices_at :
      (Token → Token → ℤ → Result ℤ)
      → OrderBook
      → ℤ
      → Token × Token
      → ℤ
      → Result (Option PriceLevels)
  compute_prices_at amm_quote book top_ask tokens size_usd =
      let size = (size_usd *ℤ price_scale) /ℤ top_ask in
      let size_num = quot (of_ℤ size) (of_ℤ price_scale) in
      let bid_walk = walk_the_book f sell size_num book in
      let ask_walk = walk_the_book f buy size_num book in
      if not bid_walk.fully_filled || not ask_walk.fully_filled
      then ok none
      else levels_at amm_quote size bid_walk.avg_price ask_walk.avg_price tokens
