-- ===== src/Inventory/Rebalancer.antt =====
-- inventory/rebalancer/: `RebalancePlanner` and `TransferPlan`. Venues are their texts, as in the
-- skew. The planning loop may not end, so it runs on fuel. The comparators of the two sorts answer
-- both orders alike for equal amounts, which leaves their order to the engine; here the later entry
-- comes first.
pub mod Loop
use internship_project_peanu.Prelude.{
  ℕ, zero, suc, Bool, true, false, not, ◌&&◌, Option, none, some, List, [], ◌∷◌, map, String,
  if◌then◌else◌, length, ltb,
}
use internship_project_peanu.Prelude.Int.{ℤ, pos, ◌-ℤ◌, neg, ltb_ℤ, leb_ℤ}
use internship_project_peanu.Prelude.Result.{Result, ok, err, ◌>>=◌, out_of_fuel}
use internship_project_peanu.Prelude.Double.{Double}
use internship_project_peanu.Prelude.Dict
use internship_project_peanu.Prelude.Dict.{Dict}
use internship_project_peanu.Inventory.Tracker.{
  InventoryTracker, SkewResult, VenueSkew, skew, get_skews, free_in, or_zero,
}

pub record TransferPlan : Type 0 where
  pub from_venue : String
  pub to_venue : String
  pub asset : String
  pub amount : ℤ
  pub estimated_fee : ℤ
  pub estimated_time_min : ℕ

-- The getter `netAmount`.
unfoldable pub net_amount : TransferPlan → ℤ
net_amount p = p.amount -ℤ p.estimated_fee

-- What the planner reads of a `WithdrawalConfig`.
pub record TransferFeeInfo : Type 0 where
  pub withdrawal_fee : ℤ
  pub min_withdrawal : ℤ
  pub estimated_time_min : ℕ

pub record RebalancePlanner (D : Type 0) : Type 0 where
  pub tracker : InventoryTracker
  pub rebalance_threshold_pct : D
  pub withdrawal_fees : Dict TransferFeeInfo
  pub min_operating_balance : Dict ℤ
  pub target_ratio : String → D

pub record CheckResult (D : Type 0) : Type 0 where
  pub asset : String
  pub max_deviation_pct : D
  pub needs_rebalance : Bool

-- An entry of `surpluses` (what is in excess) or of `deficits` (what is needed).
pub record Side : Type 0 where
  pub venue : String
  pub amount : ℤ

-- `map.get(asset)?.free` of the planner's tracker at a venue
abbrev pub available_at : String → String → InventoryTracker → ℤ
available_at venue asset t = free_in asset (Dict.get venue t.balances)

-- `feeInfo && amount < feeInfo.minWithdrawal`
abbrev pub below_min : Option TransferFeeInfo → ℤ → Bool
below_min none amount = false
below_min (some info) amount = ltb_ℤ amount info.min_withdrawal

-- The amount that a sender with the given balance sends to a receiver, if any: the smaller of excess
-- and need, trimmed so that the operating balance is kept, unless it is below the least withdrawal.
unfoldable pub planned : Option TransferFeeInfo → ℤ → ℤ → ℤ → ℤ → Option ℤ
planned info min_op balance excess need =
    let amount = if ltb_ℤ excess need then excess else need in
    let trimmed = balance -ℤ min_op in
    if below_min info amount
    then none
    else if ltb_ℤ (balance -ℤ amount) min_op
    then (if below_min info trimmed then none else some trimmed)
    else some amount

-- The entry stays in front with what is left of it, unless nothing is left.
abbrev pub consumed : ℤ → Side → List Side → List Side
consumed amount s rest =
    let left = s.amount -ℤ amount in
    if leb_ℤ left (pos 0) then rest else record s { amount = left } ∷ rest

abbrev pub fee_of : Option TransferFeeInfo → ℤ
fee_of none = pos 0
fee_of (some info) = info.withdrawal_fee

abbrev pub time_of : Option TransferFeeInfo → ℕ
time_of none = 0
time_of (some info) = info.estimated_time_min

unfoldable pub transfer : Option TransferFeeInfo → String → Side → Side → ℤ → TransferPlan
transfer info asset sender receiver amount = record {
  from_venue = sender.venue;
  to_venue = receiver.venue;
  asset = asset;
  amount = amount;
  estimated_fee = fee_of info;
  estimated_time_min = time_of info;
}

abbrev pub prepend : TransferPlan → Result (List TransferPlan) → Result (List TransferPlan)
prepend p (ok ps) = ok (p ∷ ps)
prepend p (err e) = err e

-- The loop, from the entries that its two indices have reached on.
unfoldable pub matched :
    Option TransferFeeInfo
    → ℤ
    → String
    → InventoryTracker
    → ℕ
    → List Side
    → List Side
    → Result (List TransferPlan)
matched info min_op asset t fuel [] deficits = ok []
matched info min_op asset t fuel (s ∷ ss) [] = ok []
matched info min_op asset t zero (s ∷ ss) (d ∷ ds) = err out_of_fuel
matched info min_op asset t (suc fuel) (s ∷ ss) (d ∷ ds) =
    elim (planned info min_op (available_at s.venue asset t) s.amount d.amount) [
      | none ↦ matched info min_op asset t fuel ss (d ∷ ds)
      | some amount ↦
          prepend (transfer info asset s d amount)
            (matched info min_op asset t fuel (consumed amount s ss) (consumed amount d ds))
    ]

-- `sort((a, b) => (a.amount > b.amount ? -1 : 1))`
unfoldable pub insert_side : Side → List Side → List Side
insert_side s [] = s ∷ []
insert_side s (x ∷ xs) =
    let later = insert_side s xs in if ltb_ℤ s.amount x.amount then x ∷ later else s ∷ x ∷ xs

unfoldable pub sort_sides : List Side → List Side
sort_sides [] = []
sort_sides (s ∷ ss) = insert_side s (sort_sides ss)

module _ {D : Type 0} (f : Double D) where
  open f use {of_ℤ, mul, lt, le, round}

  -- The loop over the venues of the skew: the surpluses and the deficits.
  unfoldable pub split_venues : (String → D) → ℤ → Dict (VenueSkew D) → List Side × List Side
  split_venues ratio total [] = ([], [])
  split_venues ratio total ((venue, v) ∷ rest) =
      let (surpluses, deficits) = split_venues ratio total rest in
      let delta = v.amount -ℤ round (mul (of_ℤ total) (ratio venue)) in
      if ltb_ℤ (pos 0) delta
      then (record { venue = venue; amount = delta } ∷ surpluses, deficits)
      else if ltb_ℤ delta (pos 0)
      then (surpluses, record { venue = venue; amount = neg delta } ∷ deficits)
      else (surpluses, deficits)

  unfoldable pub plan : ℕ → String → RebalancePlanner D → Result (List TransferPlan)
  plan fuel asset p =
      let s = skew f asset p.tracker in
      let (surpluses, deficits) = split_venues p.target_ratio s.total s.venues in
      if lt s.max_deviation_pct p.rebalance_threshold_pct
      then ok []
      else matched (Dict.get asset p.withdrawal_fees)
          (or_zero (Dict.get asset p.min_operating_balance)) asset p.tracker fuel
          (sort_sides surpluses) (sort_sides deficits)

  unfoldable pub check_all : RebalancePlanner D → List (CheckResult D)
  check_all p =
      map
        (λ s. record {
          asset = s.asset;
          max_deviation_pct = s.max_deviation_pct;
          needs_rebalance = le p.rebalance_threshold_pct s.max_deviation_pct;
        })
        (get_skews f p.tracker)

  abbrev pub with_plans :
      String → List TransferPlan → Dict (List TransferPlan) → Dict (List TransferPlan)
  with_plans asset [] plans = plans
  with_plans asset (x ∷ xs) plans = Dict.put asset (x ∷ xs) plans

  unfoldable pub plan_skews :
      ℕ
      → RebalancePlanner D
      → List (SkewResult D)
      → Dict (List TransferPlan)
      → Result (Dict (List TransferPlan))
  plan_skews fuel p [] acc = ok acc
  plan_skews fuel p (s ∷ rest) acc =
      plan fuel s.asset p >>= λ plans. plan_skews fuel p rest (with_plans s.asset plans acc)

  unfoldable pub plan_all : ℕ → RebalancePlanner D → Result (Dict (List TransferPlan))
  plan_all fuel p = plan_skews fuel p (get_skews f p.tracker) []

pub record EstimateCostResult : Type 0 where
  pub total_transfers : ℕ
  pub total_time_min : ℕ
  pub assets_affected : Dict (Unit {0})

-- `totalFeesUsd` is always null. The assets are a Set in insertion order.
unfoldable pub cost_from : List TransferPlan → EstimateCostResult → EstimateCostResult
cost_from [] acc = acc
cost_from (p ∷ ps) acc = cost_from ps (record acc {
  total_time_min =
      if ltb acc.total_time_min p.estimated_time_min
      then p.estimated_time_min
      else acc.total_time_min;
  assets_affected = Dict.put p.asset tt acc.assets_affected;
})

unfoldable pub estimate_cost : List TransferPlan → EstimateCostResult
estimate_cost plans =
    cost_from plans
      (record { total_transfers = length plans; total_time_min = 0; assets_affected = [] })
