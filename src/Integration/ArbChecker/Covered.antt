-- ===== src/Integration/ArbChecker/Covered.antt =====
-- arbChecker.service.ts and signal.service.ts: what a signal that is made of a check promises.
use internship_project_peanu.Prelude.{ℕ, ◌≡◌, true, Option, none, some, String, if◌then◌else◌}
use internship_project_peanu.Prelude.Int.{◌*ℤ◌, ◌/ℤ◌, ◌≤ℤ◌}
use internship_project_peanu.Prelude.Result.{Result, ok, err}
use internship_project_peanu.Prelude.Double.{Double}
use internship_project_peanu.Prelude.Dict
use internship_project_peanu.Prelude.Dict.{Dict}
use internship_project_peanu.Core.{price_scale}
use internship_project_peanu.Exchange.OrderBook.{OrderBook}
use internship_project_peanu.Inventory.Tracker.{InventoryTracker, get_available}
use internship_project_peanu.Strategy.Signal.{Signal, is_buy_dex}
use internship_project_peanu.Integration.ArbChecker.{
  PairConfig, ArbCheckResult, quote_venue_of, base_venue_of, inventory_base, inventory_quote,
}
use internship_project_peanu.Strategy.Service.{create}

-- The signal's size and prices are the check's, and the two venues hold what it spends: the quote
-- asset where it buys and the base asset where it sells.
pub record IsCovered {D : Type 0} (c : PairConfig D) (book : OrderBook) (t : InventoryTracker)
    (s : Signal D) : Type 0 where
  pub size : s.size ≡ c.trade_size
  pub price : s.cex_price ≡ (if is_buy_dex s.direction then book.best_bid.0 else book.best_ask.0)
  pub flag : s.inventory_ok ≡ true
  pub quote_held :
      (s.size *ℤ s.dex_price) /ℤ price_scale
      ≤ℤ get_available (quote_venue_of (some s.direction) c) (inventory_quote c) t
  pub base_held : s.size ≤ℤ get_available (base_venue_of (some s.direction) c) (inventory_base c) t

module _ {D : Type 0} where
  abbrev pub MaybeCovered : PairConfig D → OrderBook → InventoryTracker → Option (Signal D) → Type 0
  MaybeCovered c book t none = Unit
  MaybeCovered c book t (some s) = IsCovered c book t s

module _ {D : Type 0} (f : Double D) (id pair : String) (created ttl_ms : ℕ) where
  abbrev pub ResultCovered :
      PairConfig D → OrderBook → InventoryTracker → Result (ArbCheckResult D) → Type 0
  ResultCovered c book t (err e) = Unit
  ResultCovered c book t (ok r) = MaybeCovered c book t (create f id created ttl_ms r)
