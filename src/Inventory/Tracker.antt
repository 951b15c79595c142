-- ===== src/Inventory/Tracker.antt =====
-- inventory/tracker/: `InventoryTracker`. The outer Map is keyed by the venue's text, the inner ones
-- by the asset; `snapshot` leaves out the timestamp and the price feed that is never there.
pub mod Trades
pub mod Totals
use internship_project_peanu.Prelude.{
  ℕ, ◌==◌, Bool, true, false, not, ◌&&◌, Option, none, some, List, [], ◌∷◌, ◌++◌, map, String,
  length, if◌then◌else◌,
}
use internship_project_peanu.Prelude.Int.{ℤ, pos, ◌+ℤ◌, neg, ltb_ℤ, leb_ℤ, eqb_ℤ}
use internship_project_peanu.Prelude.Result.{Result, ok, err, unregistered_venue, ◌>>=◌}
use internship_project_peanu.Prelude.Double.{Double}
use internship_project_peanu.Prelude.Dict
use internship_project_peanu.Prelude.Dict.{Dict}

pub data Venue : Type 0 where
  binance wallet : Venue

-- The text that the enumeration gives each venue.
abbrev pub name : Venue → String
name binance = "binance"
name wallet = "wallet"

pub data Side : Type 0 where
  buy sell : Side

pub record Balance : Type 0 where
  pub venue : Venue
  pub asset : String
  pub free : ℤ
  pub locked : ℤ

-- exchange/cexClient/exchange.interfaces.ts, what the tracker reads of it
pub record AssetBalance : Type 0 where
  pub free : ℤ
  pub locked : ℤ

pub record InventoryTracker : Type 0 where
  pub balances : Dict (Dict Balance)

pub register : Dict (Dict Balance) → List Venue → Dict (Dict Balance)
register m [] = m
register m (v ∷ vs) = register (Dict.put (name v) [] m) vs

unfoldable pub new : List Venue → InventoryTracker
new venues = record { balances = register [] venues }

unfoldable pub require_venue_map : Venue → InventoryTracker → Result (Dict Balance)
require_venue_map venue t = elim (Dict.get (name venue) t.balances) [
  | none ↦ err unregistered_venue
  | some m ↦ ok m
]

-- The map of a venue is changed in place: the tracker with the changed map.
abbrev pub with_map : Venue → Dict Balance → InventoryTracker → InventoryTracker
with_map venue m t = record { balances = Dict.put (name venue) m t.balances }

-- The loops over the entries, from the cleared map.
unfoldable pub set_cex : Venue → Dict Balance → Dict AssetBalance → Dict Balance
set_cex venue m [] = m
set_cex venue m ((asset, bal) ∷ rest) =
    let b : Balance = record {
      venue = venue;
      asset = asset;
      free = bal.free;
      locked = bal.locked;
    } in
    set_cex venue (Dict.put asset b m) rest

unfoldable pub set_wallet : Venue → Dict Balance → Dict ℤ → Dict Balance
set_wallet venue m [] = m
set_wallet venue m ((asset, amount) ∷ rest) =
    let b : Balance = record { venue = venue; asset = asset; free = amount; locked = pos 0 } in
    set_wallet venue (if eqb_ℤ amount (pos 0) then m else Dict.put asset b m) rest

unfoldable pub update_from_cex :
    Venue → Dict AssetBalance → InventoryTracker → Result InventoryTracker
update_from_cex venue balances t =
    require_venue_map venue t >>= λ _. ok (with_map venue (set_cex venue [] balances) t)

unfoldable pub update_from_wallet : Venue → Dict ℤ → InventoryTracker → Result InventoryTracker
update_from_wallet venue balances t =
    require_venue_map venue t >>= λ _. ok (with_map venue (set_wallet venue [] balances) t)

abbrev pub free_or_zero : Option Balance → ℤ
free_or_zero none = pos 0
free_or_zero (some b) = b.free

abbrev pub free_in : String → Option (Dict Balance) → ℤ
free_in asset none = pos 0
free_in asset (some m) = free_or_zero (Dict.get asset m)

unfoldable pub get_available : Venue → String → InventoryTracker → ℤ
get_available venue asset t = free_in asset (Dict.get (name venue) t.balances)

-- The texts of the code's reasons, without the names and amounts formatted into them.
pub data Shortage : Type 0 where
  both_short buy_short sell_short : Shortage

pub record CanExecuteResult : Type 0 where
  pub can_execute : Bool
  pub buy_venue_available : ℤ
  pub buy_venue_needed : ℤ
  pub sell_venue_available : ℤ
  pub sell_venue_needed : ℤ
  pub reason : Option Shortage

unfoldable pub can_execute :
    Venue → String → ℤ → Venue → String → ℤ → InventoryTracker → CanExecuteResult
can_execute buy_venue buy_asset buy_amount sell_venue sell_asset sell_amount t =
    let buy_available = get_available buy_venue buy_asset t in
    let sell_available = get_available sell_venue sell_asset t in
    let buy_ok = leb_ℤ buy_amount buy_available in
    let sell_ok = leb_ℤ sell_amount sell_available in
    record {
      can_execute = buy_ok && sell_ok;
      buy_venue_available = buy_available;
      buy_venue_needed = buy_amount;
      sell_venue_available = sell_available;
      sell_venue_needed = sell_amount;
      reason =
          if not buy_ok && not sell_ok
          then some both_short
          else if not buy_ok
          then some buy_short
          else if not sell_ok
          then some sell_short
          else none;
    }

-- `existing ?? { venue, asset, free: 0n, locked: 0n }`
abbrev pub or_new : Venue → String → Option Balance → Balance
or_new venue asset none = record { venue = venue; asset = asset; free = pos 0; locked = pos 0 }
or_new venue asset (some b) = b

unfoldable pub adjust_free : Venue → String → ℤ → Dict Balance → Dict Balance
adjust_free venue asset delta m =
    let current = or_new venue asset (Dict.get asset m) in
    Dict.put asset (record current { free = current.free +ℤ delta }) m

-- A trade: `recordTrade`'s arguments after the venue.
pub record Trade : Type 0 where
  pub side : Side
  pub base_asset : String
  pub quote_asset : String
  pub base_amount : ℤ
  pub quote_amount : ℤ
  pub fee : ℤ
  pub fee_asset : String

abbrev pub signed : Side → ℤ → ℤ
signed buy amount = amount
signed sell amount = neg amount

abbrev pub signed_quote : Side → ℤ → ℤ
signed_quote buy amount = neg amount
signed_quote sell amount = amount

unfoldable pub record_trade : Venue → Trade → InventoryTracker → Result InventoryTracker
unfolding adjust_free
record_trade venue x t = require_venue_map venue t >>= λ m.
    let with_base = adjust_free venue x.base_asset (signed x.side x.base_amount) m in
    let with_quote =
      adjust_free venue x.quote_asset (signed_quote x.side x.quote_amount) with_base in
    ok (with_map venue (adjust_free venue x.fee_asset (neg x.fee) with_quote) t)

pub record VenueAssetSnapshot : Type 0 where
  pub free : ℤ
  pub locked : ℤ
  pub total : ℤ

pub record Snapshot : Type 0 where
  pub venues : Dict (Dict VenueAssetSnapshot)
  pub totals : Dict ℤ

abbrev pub or_zero : Option ℤ → ℤ
or_zero none = pos 0
or_zero (some n) = n

-- The inner loop of `snapshot`, and the outer one.
unfoldable pub snapshot_assets :
    Dict Balance → Dict VenueAssetSnapshot × Dict ℤ → Dict VenueAssetSnapshot × Dict ℤ
snapshot_assets [] acc = acc
snapshot_assets ((asset, b) ∷ rest) (venue_snapshot, totals) =
    let total = b.free +ℤ b.locked in
    snapshot_assets rest (
      Dict.put asset (record { free = b.free; locked = b.locked; total = total }) venue_snapshot,
      Dict.put asset (or_zero (Dict.get asset totals) +ℤ total) totals,
    )

unfoldable pub snapshot_venues : Dict (Dict Balance) → Snapshot → Snapshot
snapshot_venues [] s = s
snapshot_venues ((venue, m) ∷ rest) s =
    let (venue_snapshot, totals) = snapshot_assets m ([], s.totals) in
    snapshot_venues rest
      (record { venues = Dict.put venue venue_snapshot s.venues; totals = totals })

unfoldable pub snapshot : InventoryTracker → Snapshot
snapshot t = snapshot_venues t.balances (record { venues = []; totals = [] })

abbrev pub total_or_zero : Option Balance → ℤ
total_or_zero none = pos 0
total_or_zero (some b) = b.free +ℤ b.locked

-- The first loop of `skew`.
unfoldable pub venue_amounts : String → Dict (Dict Balance) → List (String × ℤ)
venue_amounts asset [] = []
venue_amounts asset ((venue, m) ∷ rest) =
    (venue, total_or_zero (Dict.get asset m)) ∷ venue_amounts asset rest

unfoldable pub sum_amounts : ℤ → List (String × ℤ) → ℤ
sum_amounts acc [] = acc
sum_amounts acc ((_, amount) ∷ rest) = sum_amounts (acc +ℤ amount) rest

pub record VenueSkew (D : Type 0) : Type 0 where
  pub amount : ℤ
  pub pct : D
  pub deviation_pct : D

pub record SkewResult (D : Type 0) : Type 0 where
  pub asset : String
  pub total : ℤ
  pub venues : Dict (VenueSkew D)
  pub max_deviation_pct : D

module _ {D : Type 0} (f : Double D) where
  open f use {of_ℤ, sub, mul, quot, abs, lt}

  -- The second loop of `skew`.
  unfoldable pub skew_venues :
      ℤ → D → List (String × ℤ) → Dict (VenueSkew D) × D → Dict (VenueSkew D) × D
  skew_venues total ideal_pct [] acc = acc
  skew_venues total ideal_pct ((venue, amount) ∷ rest) (venues, max_deviation) =
      let pct =
        if ltb_ℤ (pos 0) total
        then mul (quot (of_ℤ amount) (of_ℤ total)) (of_ℤ (pos 100))
        else of_ℤ (pos 0) in
      let deviation = sub pct ideal_pct in
      skew_venues total ideal_pct rest (
        Dict.put venue (record { amount = amount; pct = pct; deviation_pct = deviation }) venues,
        if lt max_deviation (abs deviation) then abs deviation else max_deviation,
      )

  unfoldable pub skew : String → InventoryTracker → SkewResult D
  skew asset t =
      let amounts = venue_amounts asset t.balances in
      let total = sum_amounts (pos 0) amounts in
      let count = length amounts in
      let ideal_pct =
        if count == 0 then of_ℤ (pos 0) else quot (of_ℤ (pos 100)) (of_ℤ (pos count)) in
      let (venues, max_deviation) = skew_venues total ideal_pct amounts ([], of_ℤ (pos 0)) in
      record { asset = asset; total = total; venues = venues; max_deviation_pct = max_deviation }

-- `new Set<string>()` in the order of the first insertion
unfoldable pub add_assets : Dict Balance → Dict (Unit {0}) → Dict (Unit {0})
add_assets [] seen = seen
add_assets ((asset, _) ∷ rest) seen = add_assets rest (Dict.put asset tt seen)

unfoldable pub all_assets : Dict (Dict Balance) → Dict (Unit {0}) → Dict (Unit {0})
all_assets [] seen = seen
all_assets ((_, m) ∷ rest) seen = all_assets rest (add_assets m seen)

unfoldable pub get_skews : {D : Type 0} → Double D → InventoryTracker → List (SkewResult D)
get_skews f t = map (λ entry. skew f entry.0 t) (all_assets t.balances [])
