-- ===== src/Inventory/Rebalancer/Loop.antt =====
-- rebalancer.service.ts: when the planning loop ends, and what it plans for a trimmed sender.
use internship_project_peanu.Prelude.{
  ℕ, zero, suc, ◌+◌, ◌≤◌, ◌<◌, ◌≡◌, refl, true, false, Option, none, some, List, [], ◌∷◌, String,
  if◌then◌else◌, arith, ap, ◌∙◌, inl, inr, Option-cases, if_true, if_false, if_elim, All,
}
use internship_project_peanu.Prelude.Int.{
  ℤ, pos, ◌+ℤ◌, ◌-ℤ◌, ltb_ℤ, leb_ℤ, ◌≤ℤ◌, ◌<ℤ◌, pos_part, +ℤ_parts, -ℤ_parts,
}
use internship_project_peanu.Prelude.Result.{Result, ok, err, out_of_fuel}
use internship_project_peanu.Inventory.Tracker.{InventoryTracker}
use internship_project_peanu.Inventory.Rebalancer.{
  TransferFeeInfo, TransferPlan, Side, available_at, planned, below_min, consumed, prepend, matched,
}

smaller_positive :
    (excess need : ℤ)
    → pos 0 <ℤ excess
    → pos 0 <ℤ need
    → pos 0 <ℤ (if ltb_ℤ excess need then excess else need)
smaller_positive excess need h k = ground arith

-- Without fee information, a sender with no more than the operating balance is trimmed to an amount
-- that is not positive, which is planned all the same.
trimmed_away :
    (min_op balance excess need : ℤ)
    → pos 0 <ℤ excess
    → pos 0 <ℤ need
    → balance ≤ℤ min_op
    → planned none min_op balance excess need ≡ some (balance -ℤ min_op)
unfolding planned
trimmed_away min_op balance excess need h k low =
    let amount : ℤ = (if ltb_ℤ excess need then excess else need) in
    let positive : pos 0 <ℤ amount = smaller_positive excess need h k in
    if_true (ltb_ℤ (balance -ℤ amount) min_op) _ _ (ground (arith, -ℤ_parts balance amount))

grows :
    (x amount : ℤ)
    → pos 0 <ℤ x
    → amount ≤ℤ pos 0
    → (leb_ℤ (x -ℤ amount) (pos 0) ≡ false) × (pos 0 <ℤ x -ℤ amount)
grows x amount h k = (ground (arith, -ℤ_parts x amount), omega (arith, -ℤ_parts x amount))

difference : (balance min_op : ℤ) → balance ≤ℤ min_op → balance -ℤ min_op ≤ℤ pos 0
difference balance min_op h = omega (arith, -ℤ_parts balance min_op)

-- For an asset with no fee information, a sender whose free balance is at most the operating
-- balance makes the loop run for ever: no fuel is enough, whatever the other entries are.
pub matched_never_ends :
    (min_op : ℤ) (asset : String) (t : InventoryTracker) (fuel : ℕ) (s d : Side) (ss ds : List Side)
    → pos 0 <ℤ s.amount
    → pos 0 <ℤ d.amount
    → available_at s.venue asset t ≤ℤ min_op
    → matched none min_op asset t fuel (s ∷ ss) (d ∷ ds) ≡ err out_of_fuel
unfolding matched
matched_never_ends min_op asset t zero s d ss ds h k low = refl
matched_never_ends min_op asset t (suc fuel) s d ss ds h k low =
    let amount : ℤ = available_at s.venue asset t -ℤ min_op in
    let down = difference (available_at s.venue asset t) min_op low in
    let (s_stays, s_positive) = grows s.amount amount h down in
    let (d_stays, d_positive) = grows d.amount amount k down in
    rw
      (
        trimmed_away min_op (available_at s.venue asset t) s.amount d.amount h k low,
        matched,
        s_stays,
        d_stays,
      )
      (ap (prepend _) (
        matched_never_ends min_op asset t fuel (record s { amount = s.amount -ℤ amount })
          (record d { amount = d.amount -ℤ amount }) ss ds s_positive d_positive low))

below_min-larger :
    (info : Option TransferFeeInfo) (a b : ℤ)
    → a ≤ℤ b
    → below_min info a ≡ false
    → below_min info b ≡ false
below_min-larger none a b h k = refl
below_min-larger (some info) a b h k = ground arith

smaller_above :
    (a excess need : ℤ)
    → a <ℤ excess
    → a <ℤ need
    → a <ℤ (if ltb_ℤ excess need then excess else need)
smaller_above a excess need h k = ground arith

trimmed :
    (info : Option TransferFeeInfo) (min_op balance excess need : ℤ)
    → below_min info (balance -ℤ min_op) ≡ false
    → balance -ℤ min_op <ℤ excess
    → balance -ℤ min_op <ℤ need
    → planned info min_op balance excess need ≡ some (balance -ℤ min_op)
unfolding planned
trimmed info min_op balance excess need allowed h k =
    let amount : ℤ = (if ltb_ℤ excess need then excess else need) in
    let above : balance -ℤ min_op <ℤ amount = smaller_above (balance -ℤ min_op) excess need h k in
    let low : ltb_ℤ (balance -ℤ amount) min_op ≡ true =
      ground (arith, -ℤ_parts balance amount, -ℤ_parts balance min_op) in
    if_false (below_min info amount) _ _
      (below_min-larger info (balance -ℤ min_op) amount (omega (arith, above)) allowed)
    ∙ if_true (ltb_ℤ (balance -ℤ amount) min_op) _ _ low
    ∙ if_false (below_min info (balance -ℤ min_op)) _ _ allowed

-- A sender that is trimmed to what its operating balance leaves, where that is less than half of its
-- excess and of the receiver's need, is asked for the same amount again for the rest: the two
-- transfers together take it below the operating balance.
pub trimmed_twice :
    (info : Option TransferFeeInfo) (min_op balance excess need : ℤ)
    → pos 0 <ℤ balance -ℤ min_op
    → below_min info (balance -ℤ min_op) ≡ false
    → balance -ℤ min_op +ℤ (balance -ℤ min_op) <ℤ excess
    → balance -ℤ min_op +ℤ (balance -ℤ min_op) <ℤ need
    → let a = balance -ℤ min_op in
      (planned info min_op balance excess need ≡ some a)
      × (planned info min_op balance (excess -ℤ a) (need -ℤ a) ≡ some a)
      × (balance -ℤ a -ℤ a <ℤ min_op)
trimmed_twice info min_op balance excess need positive allowed h k =
    let a : ℤ = balance -ℤ min_op in
    (
      trimmed info min_op balance excess need allowed (omega (arith, positive, h, +ℤ_parts a a))
          (omega (arith, positive, k, +ℤ_parts a a)),
      trimmed info min_op balance (excess -ℤ a) (need -ℤ a) allowed
          (omega (arith, h, +ℤ_parts a a, -ℤ_parts excess a))
          (omega (arith, k, +ℤ_parts a a, -ℤ_parts need a)),
      omega
          (arith, positive, -ℤ_parts balance min_op, -ℤ_parts balance a, -ℤ_parts (balance -ℤ a) a),
    )

-- A planned amount is at least the least withdrawal.
planned_at_least :
    (info : TransferFeeInfo) (min_op balance excess need amount : ℤ)
    → planned (some info) min_op balance excess need ≡ some amount
    → info.min_withdrawal ≤ℤ amount
unfolding planned
planned_at_least info min_op balance excess need amount h = ground arith

-- What is left to be sent, and one for each entry.
abbrev pub size : List Side → ℕ
size [] = 0
size (s ∷ ss) = suc (pos_part s.amount + size ss)

consumed-size :
    (amount : ℤ) (s : Side) (ss : List Side)
    → pos 0 <ℤ amount
    → pos 0 <ℤ s.amount
    → size (consumed amount s ss) < size (s ∷ ss)
consumed-size amount s ss h k = ground (arith, -ℤ_parts s.amount amount)

consumed-All :
    (amount : ℤ) (s : Side) (ss : List Side)
    → All (λ x. pos 0 <ℤ x.amount) ss
    → All (λ x. pos 0 <ℤ x.amount) (consumed amount s ss)
consumed-All amount s ss h =
    if_elim (All (λ x. pos 0 <ℤ x.amount)) (leb_ℤ (s.amount -ℤ amount) (pos 0)) _ _ (λ _. h)
      (λ more. (ground arith, h))

prepended :
    (p : TransferPlan) (r : Result (List TransferPlan))
    → (ps : List TransferPlan) × (r ≡ ok ps)
    → (ps : List TransferPlan) × (prepend p r ≡ ok ps)
prepended p r (ps, e) = (p ∷ ps, ap (prepend p) e)

-- For an asset with a positive least withdrawal the loop ends: fuel for every entry and every unit
-- of the surpluses is enough.
pub matched_ends :
    (info : TransferFeeInfo) (min_op : ℤ) (asset : String) (t : InventoryTracker) (fuel : ℕ)
    (ss ds : List Side)
    → pos 0 <ℤ info.min_withdrawal
    → All (λ x. pos 0 <ℤ x.amount) ss
    → size ss ≤ fuel
    → (plans : List TransferPlan) × (matched (some info) min_op asset t fuel ss ds ≡ ok plans)
unfolding matched
matched_ends info min_op asset t fuel [] ds m h enough = ([], refl)
matched_ends info min_op asset t fuel (s ∷ ss) [] m h enough = ([], refl)
matched_ends info min_op asset t zero (s ∷ ss) (d ∷ ds) m h enough = absurd (omega (arith, enough))
matched_ends info min_op asset t (suc fuel) (s ∷ ss) (d ∷ ds) m h enough =
    elim (Option-cases
      (planned (some info) min_op (available_at s.venue asset t) s.amount d.amount)) [
        | inl skipped ↦
            rw (skipped, matched)
              (matched_ends info min_op asset t fuel ss (d ∷ ds) m h.1 (omega (arith, enough)))
        | inr (amount, sent) ↦
            let least =
              planned_at_least info min_op (available_at s.venue asset t) s.amount d.amount amount
                sent in
            let smaller = consumed-size amount s ss (omega (arith, m, least)) h.0 in
            rw (sent, matched)
              (prepended _ _ (
                matched_ends info min_op asset t fuel (consumed amount s ss) (consumed amount d ds)
                  m (consumed-All amount s ss h.1) (omega (arith, enough, smaller))))
      ]
