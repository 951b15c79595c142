-- ===== src/Exchange/OrderBook/Walk.antt =====
-- orderBook.analyzer.ts: what a walk of the book fills.
use mathlib.Core.List.{append-nil, append_assoc}
use internship_project_peanu.Prelude.{
  ℕ, ◌+◌, ◌-◌, ◌*◌, ◌/◌, ◌≤◌, ◌≡◌, refl, true, false, List, [], ◌∷◌, ◌++◌, if◌then◌else◌, arith,
  ◌↔◌, ltb, leb, ap, ◌∙◌, sym, if_elim, if_true, if_false, subst, Bool-cases, inl, inr,
}
use internship_project_peanu.Prelude.Int.{
  ℤ, pos, ◌+ℤ◌, ◌-ℤ◌, ◌*ℤ◌, ◌/ℤ◌, leb_ℤ, ltb_ℤ, +ℤ_assoc, +ℤ_zero, zero_+ℤ, pos--ℤ, pos-+ℤ,
}
use internship_project_peanu.Core.{price_scale}
use internship_project_peanu.Inventory.Tracker.{Side}
use internship_project_peanu.Exchange.OrderBook.{
  Level, OrderBook, Fill, Progress, fill_of, filled_at, walk_levels, levels_of, walk_scaled,
}

-- Levels with natural prices and quantities, as an exchange publishes them.
abbrev pub levels : List (ℕ × ℕ) → List Level
levels [] = []
levels ((price, qty) ∷ rest) = (pos price, pos qty) ∷ levels rest

abbrev pub depth : List (ℕ × ℕ) → ℕ
depth [] = 0
depth ((price, qty) ∷ rest) = qty + depth rest

abbrev pub sum_fills : (Fill → ℤ) → List Fill → ℤ
sum_fills g [] = pos 0
sum_fills g (x ∷ xs) = g x +ℤ sum_fills g xs

-- The fill-by-fill description of a walk of natural amounts.
abbrev pub fills_of : ℕ → List (ℕ × ℕ) → List Fill
fills_of target [] = []
fills_of target ((price, qty) ∷ rest) =
    let taken = if ltb target qty then target else qty in
    let onward = fills_of (target - taken) rest in
    if leb target 0
    then []
    else record { price = pos price; qty = pos taken; cost = pos (taken * price / 100_000_000) }
      ∷ onward

abbrev taken_of : ℕ → ℕ → ℕ
taken_of target qty = if ltb target qty then target else qty

taken_ℤ :
    (target qty : ℕ)
    → (if ltb_ℤ (pos target) (pos qty) then pos target else pos qty) ≡ pos (taken_of target qty)
taken_ℤ target qty = ground arith

abbrev fill_at : ℕ → ℕ → ℕ → Fill
fill_at target price qty = record {
  price = pos price;
  qty = pos (taken_of target qty);
  cost = pos (taken_of target qty * price / 100_000_000);
}

fill_of-pos :
    (target price qty : ℕ) → fill_of (pos target) (pos price, pos qty) ≡ fill_at target price qty
unfolding ◌*ℤ◌ ◌/ℤ◌
fill_of-pos target price qty =
    ap (λ z. record { price = pos price; qty = z; cost = (z *ℤ pos price) /ℤ price_scale })
      (taken_ℤ target qty)

left_after :
    (target qty : ℕ) → pos target -ℤ pos (taken_of target qty) ≡ pos (target - taken_of target qty)
left_after target qty = pos--ℤ target (taken_of target qty) (ground arith)

onward_fills :
    (target price qty : ℕ) (rest : List (ℕ × ℕ))
    → leb target 0 ≡ false
    → fills_of target ((price, qty) ∷ rest)
      ≡ fill_at target price qty ∷ fills_of (target - taken_of target qty) rest
onward_fills target price qty rest more = if_false (leb target 0) _ _ more

no_fills :
    (target price qty : ℕ) (rest : List (ℕ × ℕ))
    → leb target 0 ≡ true
    → fills_of target ((price, qty) ∷ rest) ≡ []
no_fills target price qty rest enough = if_true (leb target 0) _ _ enough

nothing_left : (target n : ℕ) → leb target 0 ≡ true → target ≡ target - n
nothing_left target n h = ground arith

left_depth : (target qty rest : ℕ) → target - taken_of target qty - rest ≡ target - (qty + rest)
left_depth target qty rest = ground arith

same_test : (r : ℤ) (target : ℕ) → r ≡ pos target → leb_ℤ r (pos 0) ≡ leb target 0
same_test r target h = ap (λ z. leb_ℤ z (pos 0)) h ∙ (ground arith)

-- Where a walk of natural levels gets to.
abbrev Walked : List (ℕ × ℕ) → ℕ → Progress → Progress → Type 0
Walked ls target p q =
    (q.remaining ≡ pos (target - depth ls))
    × (q.total_cost ≡ p.total_cost +ℤ sum_fills (λ x. x.cost) (fills_of target ls))
    × (q.fills ≡ p.fills ++ fills_of target ls)

walked :
    (ls : List (ℕ × ℕ)) (target : ℕ) (p : Progress)
    → p.remaining ≡ pos target
    → Walked ls target p (walk_levels (levels ls) p)
unfolding walk_levels
walked [] target p h =
    (h ∙ ap pos (omega arith), sym (+ℤ_zero p.total_cost), sym (append-nil p.fills))
walked ((price, qty) ∷ rest) target p h =
    if_elim (Walked ((price, qty) ∷ rest) target p) (leb_ℤ p.remaining (pos 0)) _ _
      (λ enough.
        let stop : leb target 0 ≡ true = sym (same_test p.remaining target h) ∙ enough in
        let none = no_fills target price qty rest stop in
        (
          h ∙ ap pos (nothing_left target (qty + depth rest) stop),
          sym (+ℤ_zero p.total_cost)
              ∙ ap (λ xs. p.total_cost +ℤ sum_fills (λ x. x.cost) xs) (sym none),
          sym (append-nil p.fills) ∙ ap (λ xs. p.fills ++ xs) (sym none),
        ))
      (λ more.
        let go : leb target 0 ≡ false = sym (same_test p.remaining target h) ∙ more in
        let some_fills = onward_fills target price qty rest go in
        let fill : fill_of p.remaining (pos price, pos qty) ≡ fill_at target price qty =
          ap (λ r. fill_of r (pos price, pos qty)) h ∙ fill_of-pos target price qty in
        let left : p.remaining -ℤ (fill_of p.remaining (pos price, pos qty)).qty
            ≡ pos (target - taken_of target qty) =
          ap (λ r. r -ℤ (fill_of p.remaining (pos price, pos qty)).qty) h
          ∙ ap (λ x. pos target -ℤ x.qty) fill
          ∙ left_after target qty in
        let (remaining, cost, fills) =
          walked rest (target - taken_of target qty) (filled_at (pos price, pos qty) p) left in
        (
          remaining ∙ ap pos (left_depth target qty (depth rest)),
          cost
              ∙ +ℤ_assoc p.total_cost _ _
              ∙ ap
                  (λ x.
                    p.total_cost
                    +ℤ (x.cost
                        +ℤ sum_fills (λ x. x.cost) (fills_of (target - taken_of target qty) rest)))
                  fill
              ∙ ap (λ xs. p.total_cost +ℤ sum_fills (λ x. x.cost) xs) (sym some_fills),
          fills
              ∙ append_assoc p.fills _ _
              ∙ ap (λ x. p.fills ++ x ∷ fills_of (target - taken_of target qty) rest) fill
              ∙ ap (λ xs. p.fills ++ xs) (sym some_fills),
        ))

total_filled :
    (ls : List (ℕ × ℕ)) (target : ℕ)
    → sum_fills (λ x. x.qty) (fills_of target ls)
      ≡ pos (if leb target (depth ls) then target else depth ls)
total_filled [] target = ap pos (ground arith)
total_filled ((price, qty) ∷ rest) target = elim (Bool-cases (leb target 0)) [
  | inl enough ↦
      ap (sum_fills (λ x. x.qty)) (no_fills target price qty rest enough) ∙ ap pos (ground arith)
  | inr more ↦
      ap (sum_fills (λ x. x.qty)) (onward_fills target price qty rest more)
      ∙ ap (λ n. pos (taken_of target qty) +ℤ n) (total_filled rest (target - taken_of target qty))
      ∙ pos-+ℤ (taken_of target qty) _
      ∙ ap pos (ground arith)
]

filled_iff : (r : ℤ) (target n : ℕ) → r ≡ pos (target - n) → (leb_ℤ r (pos 0) ≡ true) ↔ (target ≤ n)
filled_iff r target n h = (λ t. ground arith, λ t. ap (λ z. leb_ℤ z (pos 0)) h ∙ (ground arith))

-- On levels with natural prices and quantities, a walk for a natural amount fills the levels in
-- their order, each up to what remains; the fills add up to the amount or to all that the levels
-- hold, whichever is less, and the total cost is the sum of the fills' costs; the order is fully
-- filled exactly when the levels hold the amount.
pub walk_scaled-fills :
    (side : Side) (target : ℕ) (book : OrderBook) (ls : List (ℕ × ℕ))
    → levels_of side book ≡ levels ls
    → let r = walk_scaled side (pos target) book in
      (r.fills ≡ fills_of target ls)
      × (sum_fills (λ x. x.qty) r.fills ≡ pos (if leb target (depth ls) then target else depth ls))
      × (r.total_cost ≡ sum_fills (λ x. x.cost) r.fills)
      × ((r.fully_filled ≡ true) ↔ (target ≤ depth ls))
unfolding walk_scaled
walk_scaled-fills side target book ls natural =
    let start : Progress = record { remaining = pos target; total_cost = pos 0; fills = [] } in
    let (remaining, cost, fills) =
      subst (λ xs. Walked ls target start (walk_levels xs start)) (sym natural)
        (walked ls target start refl) in
    (
      fills,
      ap (sum_fills (λ x. x.qty)) fills ∙ total_filled ls target,
      cost ∙ zero_+ℤ _ ∙ ap (sum_fills (λ x. x.cost)) (sym fills),
      filled_iff _ target (depth ls) remaining,
    )
