-- ===== src/Inventory/Pnl.antt =====
-- inventory/pnl/: `TradeLeg`, `ArbRecord` and `PnLEngine`. Times are milliseconds since the epoch.
-- The square root is a parameter, as the other operations on numbers are; NaN is `none`.
pub mod Summary
mod Tests
use internship_project_peanu.Prelude.{
  ℕ, ◌-◌, ◌/◌, ◌%◌, ◌==◌, Option, none, some, List, [], ◌∷◌, ◌++◌, map, reverse, String, ltb,
  if◌then◌else◌, length, keep, drop,
}
use internship_project_peanu.Prelude.Int.{ℤ, pos, ◌+ℤ◌, ◌-ℤ◌, ◌*ℤ◌, ◌/ℤ◌, ltb_ℤ, eqb_ℤ}
use internship_project_peanu.Prelude.Double.{Double}
use internship_project_peanu.Core.{price_scale}
use internship_project_peanu.Inventory.Tracker.{Venue, Side}

pub record TradeLeg : Type 0 where
  pub id : String
  pub timestamp : ℕ
  pub venue : Venue
  pub symbol : String
  pub side : Side
  pub amount : ℤ
  pub price : ℤ
  pub fee : ℤ
  pub fee_asset : String

pub record ArbRecord : Type 0 where
  pub id : String
  pub timestamp : ℕ
  pub buy_leg : TradeLeg
  pub sell_leg : TradeLeg
  pub gas_cost_usd : ℤ

unfoldable pub gross_pnl : ArbRecord → ℤ
gross_pnl t = ((t.sell_leg.price -ℤ t.buy_leg.price) *ℤ t.buy_leg.amount) /ℤ price_scale

unfoldable pub total_fees : ArbRecord → ℤ
total_fees t = t.buy_leg.fee +ℤ t.sell_leg.fee +ℤ t.gas_cost_usd

unfoldable pub net_pnl : ArbRecord → ℤ
net_pnl t = gross_pnl t -ℤ total_fees t

unfoldable pub notional : ArbRecord → ℤ
notional t = (t.buy_leg.price *ℤ t.buy_leg.amount) /ℤ price_scale

unfoldable pub net_pnl_bps : ArbRecord → ℤ
net_pnl_bps t =
    if eqb_ℤ (notional t) (pos 0) then pos 0 else (net_pnl t *ℤ pos 10_000) /ℤ notional t

pub record TradeSummary : Type 0 where
  pub id : String
  pub timestamp : ℕ
  pub symbol : String
  pub net_pnl : ℤ
  pub net_pnl_bps : ℤ
  pub notional : ℤ
  pub buy_venue : Venue
  pub sell_venue : Venue

pub record PnlSummary (D : Type 0) : Type 0 where
  pub total_trades : ℕ
  pub total_pnl_usd : ℤ
  pub total_fees_usd : ℤ
  pub avg_pnl_per_trade : ℤ
  pub avg_pnl_bps : ℤ
  pub win_rate : D
  pub best_trade_pnl : ℤ
  pub worst_trade_pnl : ℤ
  pub total_notional : ℤ
  pub sharpe_estimate : Option D
  -- by the hour of the day, in ascending order, as an object's integer keys are
  pub pnl_by_hour : List (ℕ × ℤ)

pub record PnlEngine : Type 0 where
  pub trades : List ArbRecord

-- `record`
unfoldable pub append_trade : ArbRecord → PnlEngine → PnlEngine
append_trade t e = record e { trades = e.trades ++ t ∷ [] }

-- The loops of `reduce`.
unfoldable pub sum_from : ℤ → List ℤ → ℤ
sum_from acc [] = acc
sum_from acc (x ∷ xs) = sum_from (acc +ℤ x) xs

unfoldable pub max_from : ℤ → List ℤ → ℤ
max_from m [] = m
max_from m (p ∷ ps) = max_from (if ltb_ℤ m p then p else m) ps

unfoldable pub min_from : ℤ → List ℤ → ℤ
min_from m [] = m
min_from m (p ∷ ps) = min_from (if ltb_ℤ p m then p else m) ps

-- `getUTCHours`
unfoldable pub utc_hour : ℕ → ℕ
utc_hour timestamp = (timestamp / 3_600_000) % 24

-- `pnlByHour[hour] = (pnlByHour[hour] ?? 0n) + pnl`
unfoldable pub add_to_hour : ℕ → ℤ → List (ℕ × ℤ) → List (ℕ × ℤ)
add_to_hour hour pnl [] = (hour, pos 0 +ℤ pnl) ∷ []
add_to_hour hour pnl ((h, total) ∷ rest) =
    let later = add_to_hour hour pnl rest in
    if hour == h
    then (h, total +ℤ pnl) ∷ rest
    else if ltb hour h
    then (hour, pos 0 +ℤ pnl) ∷ (h, total) ∷ rest
    else (h, total) ∷ later

unfoldable pub group_by_hour : List ArbRecord → List (ℕ × ℤ) → List (ℕ × ℤ)
group_by_hour [] hours = hours
group_by_hour (t ∷ ts) hours =
    group_by_hour ts (add_to_hour (utc_hour t.timestamp) (net_pnl t) hours)

module _ {D : Type 0} (f : Double D) (sqrt : D → D) where
  open f use {of_ℤ, add, sub, mul, quot, lt}

  abbrev pub sum_double : D → List D → D
  sum_double acc [] = acc
  sum_double acc (x ∷ xs) = sum_double (add acc x) xs

  unfoldable pub sharpe_of : List ℤ → Option D
  sharpe_of pnls =
      let xs = map (λ p. quot (of_ℤ p) (of_ℤ price_scale)) pnls in
      let count = of_ℤ (pos (length xs)) in
      let mean = quot (sum_double (of_ℤ (pos 0)) xs) count in
      let squares = map (λ p. mul (sub p mean) (sub p mean)) xs in
      let variance = quot (sum_double (of_ℤ (pos 0)) squares) count in
      if lt (of_ℤ (pos 0)) variance then some (quot mean (sqrt variance)) else none

  abbrev pub summary_of : List ArbRecord → PnlSummary D
  summary_of [] = record {
    total_trades = 0;
    total_pnl_usd = pos 0;
    total_fees_usd = pos 0;
    avg_pnl_per_trade = pos 0;
    avg_pnl_bps = pos 0;
    win_rate = of_ℤ (pos 0);
    best_trade_pnl = pos 0;
    worst_trade_pnl = pos 0;
    total_notional = pos 0;
    sharpe_estimate = none;
    pnl_by_hour = [];
  }
  summary_of (t ∷ ts) =
      let pnls = map net_pnl (t ∷ ts) in
      let total = sum_from (pos 0) pnls in
      let all_notional = sum_from (pos 0) (map notional (t ∷ ts)) in
      record {
        total_trades = length (t ∷ ts);
        total_pnl_usd = total;
        total_fees_usd = sum_from (pos 0) (map total_fees (t ∷ ts));
        avg_pnl_per_trade = total /ℤ pos (length (t ∷ ts));
        avg_pnl_bps =
            if ltb_ℤ (pos 0) all_notional then (total *ℤ pos 10_000) /ℤ all_notional else pos 0;
        win_rate =
            quot (of_ℤ (pos (length (keep (λ p. ltb_ℤ (pos 0) p) pnls))))
              (of_ℤ (pos (length pnls)));
        best_trade_pnl = max_from (net_pnl t) pnls;
        worst_trade_pnl = min_from (net_pnl t) pnls;
        total_notional = all_notional;
        sharpe_estimate = sharpe_of pnls;
        pnl_by_hour = group_by_hour (t ∷ ts) [];
      }

  unfoldable pub summary : PnlEngine → PnlSummary D
  summary e = summary_of e.trades

abbrev pub trade_summary : ArbRecord → TradeSummary
trade_summary t = record {
  id = t.id;
  timestamp = t.timestamp;
  symbol = t.buy_leg.symbol;
  net_pnl = net_pnl t;
  net_pnl_bps = net_pnl_bps t;
  notional = notional t;
  buy_venue = t.buy_leg.venue;
  sell_venue = t.sell_leg.venue;
}

-- `slice(-0)` is the whole array.
unfoldable pub recent : ℕ → PnlEngine → List TradeSummary
recent n e =
    map trade_summary (reverse (if n == 0 then e.trades else drop (length e.trades - n) e.trades))
