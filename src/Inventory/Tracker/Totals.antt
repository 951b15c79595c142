-- ===== src/Inventory/Tracker/Totals.antt =====
-- tracker.service.ts: the totals of `snapshot` and of `skew`, and the maps' keys.
use mathlib.Core.Option.{some-injective}
use text.Mathlib.TextPositions.{eq_refl}
use internship_project_peanu.Prelude.{
  ◌≡◌, refl, none, some, [], ◌∷◌, String, str_eq, eq_iff, if◌then◌else◌, arith, ◌⊎◌, inl, inr, ap,
  ◌∙◌, sym, subst, Bool-cases, Option-cases, All,
}
use internship_project_peanu.Prelude.Int.{ℤ, pos, ◌+ℤ◌, eqb_ℤ, +ℤ_zero}
use internship_project_peanu.Prelude.Result.{Result, ok, err, unregistered_venue, ◌>>=◌}
use internship_project_peanu.Prelude.Double.{Double}
use internship_project_peanu.Prelude.Dict
use internship_project_peanu.Prelude.Dict.{Dict}
use internship_project_peanu.Inventory.Tracker.{
  Venue, name, Balance, AssetBalance, InventoryTracker, Trade, VenueAssetSnapshot, Snapshot,
  set_cex, set_wallet, with_map, update_from_cex, update_from_wallet, adjust_free, record_trade,
  or_zero, total_or_zero, snapshot_assets, snapshot_venues, snapshot, venue_amounts, sum_amounts,
  skew, require_venue_map,
}

-- Every venue's map has each asset once.
abbrev pub IsTracker : InventoryTracker → Type 0
IsTracker t = All (λ entry. Dict.IsMap entry.1) t.balances

put_total :
    (k a : String) (total : ℤ) (ts : Dict ℤ) (rest : Dict Balance)
    → Dict.get k rest ≡ none
    → or_zero (Dict.get a (Dict.put k (or_zero (Dict.get k ts) +ℤ total) ts))
        +ℤ total_or_zero (Dict.get a rest)
      ≡ or_zero (Dict.get a ts) +ℤ (if str_eq k a then total else total_or_zero (Dict.get a rest))
put_total k a total ts rest absent = elim (Bool-cases (str_eq k a)) [
  | inl same ↦
      subst
        (λ j.
          or_zero (Dict.get j (Dict.put k (or_zero (Dict.get k ts) +ℤ total) ts))
            +ℤ total_or_zero (Dict.get j rest)
          ≡ or_zero (Dict.get j ts)
            +ℤ (if str_eq k a then total else total_or_zero (Dict.get j rest)))
        ((eq_iff k a).0 same)
        (rw (absent, same) (+ℤ_zero _ ∙ ap or_zero (Dict.get-put k k _ ts) ∙ rw (eq_refl k) refl))
  | inr differs ↦
      ap (λ o. or_zero o +ℤ total_or_zero (Dict.get a rest)) (Dict.get-put k a _ ts)
      ∙ rw differs refl
]

total-entry :
    (k a : String) (b : Balance) (rest : Dict Balance)
    → total_or_zero (Dict.get a ((k, b) ∷ rest))
      ≡ (if str_eq k a then b.free +ℤ b.locked else total_or_zero (Dict.get a rest))
unfolding Dict.get
total-entry k a b rest = elim (Bool-cases (str_eq k a)) [
  | inl same ↦ rw same refl
  | inr differs ↦ rw differs refl
]

assets_total :
    (a : String) (m : Dict Balance) (vs : Dict VenueAssetSnapshot) (ts : Dict ℤ)
    → Dict.IsMap m
    → or_zero (Dict.get a (snapshot_assets m (vs, ts)).1)
      ≡ or_zero (Dict.get a ts) +ℤ total_or_zero (Dict.get a m)
unfolding snapshot_assets Dict.get
assets_total a [] vs ts h = sym (+ℤ_zero (or_zero (Dict.get a ts)))
assets_total a ((k, b) ∷ rest) vs ts h =
    assets_total a rest _ _ h.1
    ∙ put_total k a (b.free +ℤ b.locked) ts rest h.0
    ∙ ap (λ n. or_zero (Dict.get a ts) +ℤ n) (sym (total-entry k a b rest))

venues_total :
    (a : String) (bs : Dict (Dict Balance)) (s : Snapshot)
    → All (λ entry. Dict.IsMap entry.1) bs
    → or_zero (Dict.get a (snapshot_venues bs s).totals)
      ≡ sum_amounts (or_zero (Dict.get a s.totals)) (venue_amounts a bs)
unfolding snapshot_venues sum_amounts venue_amounts
venues_total a [] s h = refl
venues_total a ((v, m) ∷ rest) s h =
    venues_total a rest _ h.1
    ∙ ap (λ n. sum_amounts n (venue_amounts a rest)) (assets_total a m [] s.totals h.0)

-- For a tracker whose maps have each asset once, the total of an asset in the snapshot is the total
-- that its skew reports.
pub snapshot-skew :
    {D : Type 0} (f : Double D) (t : InventoryTracker) (a : String)
    → IsTracker t
    → or_zero (Dict.get a (snapshot t).totals) ≡ (skew f a t).total
unfolding snapshot skew Dict.get
snapshot-skew f t a h = venues_total a t.balances (record { venues = []; totals = [] }) h

put-All :
    {V : Type 0} (P : V → Type 0) (k : String) (v : V) (m : Dict V)
    → All (λ entry. P entry.1) m
    → P v
    → All (λ entry. P entry.1) (Dict.put k v m)
unfolding Dict.put
put-All P k v [] h p = (p, tt)
put-All P k v ((j, w) ∷ m) h p = elim (Bool-cases (str_eq j k)) [
  | inl same ↦ rw same (p, h.1)
  | inr differs ↦ rw differs (h.0, put-All P k v m h.1 p)
]

cex_IsMap :
    (venue : Venue) (bs : Dict AssetBalance) (m : Dict Balance)
    → Dict.IsMap m
    → Dict.IsMap (set_cex venue m bs)
unfolding set_cex
cex_IsMap venue [] m h = h
cex_IsMap venue ((a, b) ∷ rest) m h = cex_IsMap venue rest _ (Dict.put-IsMap a _ m h)

wallet_IsMap :
    (venue : Venue) (bs : Dict ℤ) (m : Dict Balance)
    → Dict.IsMap m
    → Dict.IsMap (set_wallet venue m bs)
unfolding set_wallet
wallet_IsMap venue [] m h = h
wallet_IsMap venue ((a, amount) ∷ rest) m h = elim (Bool-cases (eqb_ℤ amount (pos 0))) [
  | inl zero ↦ rw zero (wallet_IsMap venue rest m h)
  | inr nonzero ↦ rw nonzero (wallet_IsMap venue rest _ (Dict.put-IsMap a _ m h))
]

get-All :
    {V : Type 0} (P : V → Type 0) (k : String) (m : Dict V) (v : V)
    → All (λ entry. P entry.1) m
    → Dict.get k m ≡ some v
    → P v
unfolding Dict.get
get-All P k [] v h e = ground arith
get-All P k ((j, w) ∷ m) v h e = elim (Bool-cases (str_eq j k)) [
  | inl same ↦
      let found : some w ≡ some v = (rw same at e) in subst P (some-injective w v found) h.0
  | inr differs ↦ get-All P k m v h.1 (rw differs at e)
]

map_with :
    (venue : Venue) (t : InventoryTracker) (m : Dict Balance)
    → IsTracker t
    → Dict.IsMap m
    → IsTracker (with_map venue m t)
map_with venue t m h p = put-All Dict.IsMap (name venue) m t.balances h p

required :
    (venue : Venue) (t : InventoryTracker)
    → (require_venue_map venue t ≡ err unregistered_venue)
      ⊎ ((m : Dict Balance) × (require_venue_map venue t ≡ ok m)
          × (Dict.get (name venue) t.balances ≡ some m))
unfolding require_venue_map
required venue t = elim (Option-cases (Dict.get (name venue) t.balances)) [
  | inl absent ↦ inl (rw (absent, require_venue_map) refl)
  | inr (m, found) ↦ inr (m, rw (found, require_venue_map) refl, found)
]

-- What an operation that may throw leaves behind.
abbrev pub Leaves : (InventoryTracker → Type 0) → Result InventoryTracker → Type 0
Leaves P (ok t) = P t
Leaves P (err e) = e ≡ unregistered_venue

-- The operations that change the tracker, each at a venue.
pub data Operation : Type 0 where
  from_cex : Dict AssetBalance → Operation
  from_wallet : Dict ℤ → Operation
  trade : Trade → Operation

abbrev pub apply : Operation → Venue → InventoryTracker → Result InventoryTracker
apply (from_cex bs) venue t = update_from_cex venue bs t
apply (from_wallet bs) venue t = update_from_wallet venue bs t
apply (trade x) venue t = record_trade venue x t

unknown_venue :
    (op : Operation) (venue : Venue) (t : InventoryTracker)
    → require_venue_map venue t ≡ err unregistered_venue
    → Leaves IsTracker (apply op venue t)
unfolding update_from_cex update_from_wallet record_trade
unknown_venue (from_cex bs) venue t e = rw (e, ◌>>=◌) refl
unknown_venue (from_wallet bs) venue t e = rw (e, ◌>>=◌) refl
unknown_venue (trade x) venue t e = rw (e, ◌>>=◌) refl

known_venue :
    (op : Operation) (venue : Venue) (t : InventoryTracker) (m : Dict Balance)
    → IsTracker t
    → Dict.IsMap m
    → require_venue_map venue t ≡ ok m
    → Leaves IsTracker (apply op venue t)
unfolding update_from_cex update_from_wallet record_trade adjust_free Dict.get
known_venue (from_cex bs) venue t m h p e =
    rw (e, ◌>>=◌) (map_with venue t (set_cex venue [] bs) h (cex_IsMap venue bs [] tt))
known_venue (from_wallet bs) venue t m h p e =
    rw (e, ◌>>=◌) (map_with venue t (set_wallet venue [] bs) h (wallet_IsMap venue bs [] tt))
known_venue (trade x) venue t m h p e =
    rw (e, ◌>>=◌)
      (map_with venue t _ h (
        Dict.put-IsMap x.fee_asset _ _
          (Dict.put-IsMap x.quote_asset _ _ (Dict.put-IsMap x.base_asset _ m p))))

-- Each operation keeps every map free of double keys, or throws the error for an unregistered
-- venue and no other.
pub apply-IsTracker :
    (op : Operation) (venue : Venue) (t : InventoryTracker)
    → IsTracker t
    → Leaves IsTracker (apply op venue t)
apply-IsTracker op venue t h = elim (required venue t) [
  | inl unknown ↦ unknown_venue op venue t unknown
  | inr (m, known, found) ↦
      known_venue op venue t m h (get-All Dict.IsMap (name venue) t.balances m h found) known
]
