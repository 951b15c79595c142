-- ===== src/Inventory/Tracker/Trades.antt =====
-- tracker.service.ts: what a recorded trade and an update do to the available amounts.
use internship_project_peanu.Prelude.{
  ◌≡◌, refl, true, Option, none, some, String, str_eq, eq_iff, if◌then◌else◌, arith, ◌↔◌, inl, inr,
  ap, ◌∙◌, sym, Bool-cases,
}
use internship_project_peanu.Prelude.Int.{ℤ, pos, ◌+ℤ◌, neg, ◌≤ℤ◌, +ℤ_zero, +ℤ_assoc}
use internship_project_peanu.Prelude.Result.{ok, ◌>>=◌}
use internship_project_peanu.Prelude.Dict
use internship_project_peanu.Prelude.Dict.{Dict}
use internship_project_peanu.Inventory.Tracker.{
  Venue, name, Balance, InventoryTracker, Trade, require_venue_map, with_map, free_or_zero, free_in,
  get_available, can_execute, or_new, adjust_free, signed, signed_quote, record_trade,
}

-- What a trade adds to the free amount of an asset at its venue.
abbrev pub trade_delta : Trade → String → ℤ
trade_delta x a =
    (if str_eq x.base_asset a then signed x.side x.base_amount else pos 0)
    +ℤ (if str_eq x.quote_asset a then signed_quote x.side x.quote_amount else pos 0)
    +ℤ (if str_eq x.fee_asset a then neg x.fee else pos 0)

free-or_new :
    (venue : Venue) (asset : String) (o : Option Balance)
    → (or_new venue asset o).free ≡ free_or_zero o
free-or_new venue asset none = refl
free-or_new venue asset (some b) = refl

adjusted :
    (venue : Venue) (asset a : String) (delta : ℤ) (m : Dict Balance)
    → free_or_zero (Dict.get a (adjust_free venue asset delta m))
      ≡ free_or_zero (Dict.get a m) +ℤ (if str_eq asset a then delta else pos 0)
unfolding adjust_free
adjusted venue asset a delta m = elim (Bool-cases (str_eq asset a)) [
  | inl same ↦
      ap free_or_zero (Dict.get-put asset a _ m)
      ∙ rw same (
          ap (λ n. n +ℤ delta) (free-or_new venue asset (Dict.get asset m))
          ∙ ap (λ k. free_or_zero (Dict.get k m) +ℤ delta) ((eq_iff asset a).0 same))
  | inr differs ↦
      ap free_or_zero (Dict.get-put asset a _ m)
      ∙ rw differs (sym (+ℤ_zero (free_or_zero (Dict.get a m))))
]

unfoldable pub adjust_trade : Venue → Trade → Dict Balance → Dict Balance
adjust_trade venue x m = adjust_free venue x.fee_asset (neg x.fee) (
    adjust_free venue x.quote_asset (signed_quote x.side x.quote_amount)
      (adjust_free venue x.base_asset (signed x.side x.base_amount) m))

-- The tracker after a trade at a venue with the map `m`.
abbrev pub traded : Venue → Trade → Dict Balance → InventoryTracker → InventoryTracker
traded venue x m t = with_map venue (adjust_trade venue x m) t

adjusted_trade :
    (venue : Venue) (x : Trade) (a : String) (m : Dict Balance)
    → free_or_zero (Dict.get a (adjust_trade venue x m))
      ≡ free_or_zero (Dict.get a m) +ℤ trade_delta x a
unfolding adjust_trade
adjusted_trade venue x a m =
    adjusted venue x.fee_asset a (neg x.fee) _
    ∙ ap (λ n. n +ℤ (if str_eq x.fee_asset a then neg x.fee else pos 0))
        (adjusted venue x.quote_asset a (signed_quote x.side x.quote_amount) _
          ∙ ap
              (λ n.
                n +ℤ (if str_eq x.quote_asset a then signed_quote x.side x.quote_amount else pos 0))
              (adjusted venue x.base_asset a (signed x.side x.base_amount) m))
    ∙ ap (λ n. n +ℤ (if str_eq x.fee_asset a then neg x.fee else pos 0))
        (+ℤ_assoc (free_or_zero (Dict.get a m)) _ _)
    ∙ +ℤ_assoc (free_or_zero (Dict.get a m)) _ _

-- The tracker with one venue's map replaced.
pub free_in-with_map :
    (venue : Venue) (v : String) (a : String) (m : Dict Balance) (t : InventoryTracker)
    → free_in a (Dict.get v (with_map venue m t).balances) ≡ (
        if str_eq (name venue) v
        then free_or_zero (Dict.get a m)
        else free_in a (Dict.get v t.balances))
free_in-with_map venue v a m t = elim (Bool-cases (str_eq (name venue) v)) [
  | inl same ↦ ap (free_in a) (Dict.get-put (name venue) v m t.balances) ∙ rw same refl
  | inr differs ↦ ap (free_in a) (Dict.get-put (name venue) v m t.balances) ∙ rw differs refl
]

pub require-known :
    (venue : Venue) (t : InventoryTracker) (m : Dict Balance)
    → Dict.get (name venue) t.balances ≡ some m
    → require_venue_map venue t ≡ ok m
unfolding require_venue_map
require-known venue t m known = rw (known, require_venue_map) refl

pub record_trade-traded :
    (venue : Venue) (x : Trade) (t : InventoryTracker) (m : Dict Balance)
    → Dict.get (name venue) t.balances ≡ some m
    → record_trade venue x t ≡ ok (traded venue x m t)
unfolding record_trade adjust_trade
record_trade-traded venue x t m known = rw (require-known venue t m known, ◌>>=◌) refl

pub get_available-traded :
    (venue : Venue) (x : Trade) (t : InventoryTracker) (m : Dict Balance) (v : Venue) (a : String)
    → Dict.get (name venue) t.balances ≡ some m
    → get_available v a (traded venue x m t)
      ≡ get_available v a t +ℤ (if str_eq (name venue) (name v) then trade_delta x a else pos 0)
unfolding get_available
get_available-traded venue x t m v a known =
    free_in-with_map venue (name v) a (adjust_trade venue x m) t
    ∙ elim (Bool-cases (str_eq (name venue) (name v))) [
      | inl same ↦ rw same (
          adjusted_trade venue x a m
          ∙ ap (λ o. free_in a o +ℤ trade_delta x a)
              (sym known ∙ ap (λ k. Dict.get k t.balances) ((eq_iff (name venue) (name v)).0 same)))
      | inr differs ↦ rw differs (sym (+ℤ_zero (get_available v a t)))
    ]

-- The check passes exactly when both amounts are available, and it names no reason exactly then.
pub can_execute_iff :
    (bv : Venue) (ba : String) (b : ℤ) (sv : Venue) (sa : String) (s : ℤ) (t : InventoryTracker)
    → let r = can_execute bv ba b sv sa s t in
      ((r.can_execute ≡ true) ↔ ((b ≤ℤ get_available bv ba t) × (s ≤ℤ get_available sv sa t)))
      × ((r.reason ≡ none) ↔ (r.can_execute ≡ true))
unfolding can_execute
can_execute_iff bv ba b sv sa s t =
    ((λ h. ground arith, λ h. ground arith), (λ h. ground arith, λ h. ground arith))
