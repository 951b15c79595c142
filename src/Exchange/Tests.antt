-- ===== src/Exchange/Tests.antt =====
-- The theorems of exchange/ on small inputs.
use internship_project_peanu.Prelude.{
  ℕ, ◌≤◌, ◌≡◌, refl, true, List, [], ◌∷◌, ◌↔◌, leb, if◌then◌else◌,
}
use internship_project_peanu.Prelude.Int.{pos}
use internship_project_peanu.Inventory.Tracker.{buy}
use internship_project_peanu.Exchange.OrderBook.{OrderBook, walk_scaled}
use internship_project_peanu.Exchange.OrderBook.Walk.{
  levels, depth, sum_fills, fills_of, walk_scaled-fills,
}

abbrev asks : List (ℕ × ℕ)
asks = (200_000_000_000, 30_000_000) ∷ (200_100_000_000, 40_000_000) ∷ []

abbrev book : OrderBook
book = record {
  bids = [];
  asks = levels asks;
  best_bid = (pos 199_900_000_000, pos 10_000_000);
  best_ask = (pos 200_000_000_000, pos 30_000_000);
  mid_price = pos 199_950_000_000;
}

walk_scaled-fills_example :
    let r = walk_scaled buy (pos 50_000_000) book in
    (r.fills ≡ fills_of 50_000_000 asks)
    × (sum_fills (λ x. x.qty) r.fills
        ≡ pos (if leb 50_000_000 (depth asks) then 50_000_000 else depth asks))
    × (r.total_cost ≡ sum_fills (λ x. x.cost) r.fills)
    × ((r.fully_filled ≡ true) ↔ (50_000_000 ≤ depth asks))
walk_scaled-fills_example = walk_scaled-fills buy 50_000_000 book asks refl
