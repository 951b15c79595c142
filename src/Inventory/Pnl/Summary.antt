-- ===== src/Inventory/Pnl/Summary.antt =====
-- pnl.service.ts: how the figures of a summary hang together.
use internship_project_peanu.Prelude.{
  ℕ, ◌==◌, ◌≡◌, refl, sym, ap, ◌∙◌, List, [], ◌∷◌, map, ltb, if_elim, if◌then◌else◌, All, arith,
}
use internship_project_peanu.Prelude.Int.{
  ℤ, pos, ◌+ℤ◌, ◌≤ℤ◌, ltb_ℤ, +ℤ_zero, zero_+ℤ, +ℤ_assoc, +ℤ_comm,
}
use internship_project_peanu.Prelude.Double.{Double}
use internship_project_peanu.Inventory.Pnl.{
  ArbRecord, PnlEngine, net_pnl, sum_from, max_from, min_from, add_to_hour, group_by_hour, utc_hour,
  summary, summary_of, PnlSummary,
}

abbrev pub hours_total : List (ℕ × ℤ) → ℤ
hours_total [] = pos 0
hours_total ((h, x) ∷ rest) = x +ℤ hours_total rest

last_swapped : (a b c : ℤ) → a +ℤ b +ℤ c ≡ a +ℤ c +ℤ b
last_swapped a b c = +ℤ_assoc a b c ∙ ap (λ n. a +ℤ n) (+ℤ_comm b c) ∙ sym (+ℤ_assoc a c b)

add_to_hour-hours_total :
    (hour : ℕ) (pnl : ℤ) (hours : List (ℕ × ℤ))
    → hours_total (add_to_hour hour pnl hours) ≡ hours_total hours +ℤ pnl
unfolding add_to_hour
add_to_hour-hours_total hour pnl [] = +ℤ_zero (pos 0 +ℤ pnl)
add_to_hour-hours_total hour pnl ((h, x) ∷ rest) =
    let later = add_to_hour hour pnl rest in
    let after = hours_total rest in
    let Adds : List (ℕ × ℤ) → Type 0 = λ hs. hours_total hs ≡ x +ℤ after +ℤ pnl in
    let inserted : List (ℕ × ℤ) = (hour, pos 0 +ℤ pnl) ∷ (h, x) ∷ rest in
    if_elim Adds (hour == h) ((h, x +ℤ pnl) ∷ rest)
      (if ltb hour h then inserted else (h, x) ∷ later) (λ _. last_swapped x pnl after)
      (λ _.
        if_elim Adds (ltb hour h) inserted ((h, x) ∷ later)
          (λ _. ap (λ n. n +ℤ (x +ℤ after)) (zero_+ℤ pnl) ∙ +ℤ_comm pnl (x +ℤ after))
          (λ _.
            ap (λ n. x +ℤ n) (add_to_hour-hours_total hour pnl rest) ∙ sym (+ℤ_assoc x after pnl)))

group_by_hour-hours_total :
    (ts : List ArbRecord) (hours : List (ℕ × ℤ))
    → hours_total (group_by_hour ts hours) ≡ sum_from (hours_total hours) (map net_pnl ts)
unfolding group_by_hour sum_from
group_by_hour-hours_total [] hours = refl
group_by_hour-hours_total (t ∷ ts) hours =
    group_by_hour-hours_total ts (add_to_hour (utc_hour t.timestamp) (net_pnl t) hours)
    ∙ ap (λ n. sum_from n (map net_pnl ts))
        (add_to_hour-hours_total (utc_hour t.timestamp) (net_pnl t) hours)

max_from-All : (m : ℤ) (ps : List ℤ) → (m ≤ℤ max_from m ps) × All (λ p. p ≤ℤ max_from m ps) ps
unfolding max_from
max_from-All m [] = (ground arith, tt)
max_from-All m (p ∷ ps) =
    let (start, rest) = max_from-All (if ltb_ℤ m p then p else m) ps in
    (ground arith, (ground arith, rest))

min_from-All : (m : ℤ) (ps : List ℤ) → (min_from m ps ≤ℤ m) × All (λ p. min_from m ps ≤ℤ p) ps
unfolding min_from
min_from-All m [] = (ground arith, tt)
min_from-All m (p ∷ ps) =
    let (start, rest) = min_from-All (if ltb_ℤ p m then p else m) ps in
    (ground arith, (ground arith, rest))

both :
    (low high : ℤ) (ps : List ℤ)
    → All (λ p. low ≤ℤ p) ps
    → All (λ p. p ≤ℤ high) ps
    → All (λ p. (low ≤ℤ p) × (p ≤ℤ high)) ps
both low high [] h k = tt
both low high (p ∷ ps) (h, hs) (k, ks) = ((h, k), both low high ps hs ks)

abbrev pub Consistent : {D : Type 0} → List ArbRecord → PnlSummary D → Type 0
Consistent ts s =
    (hours_total s.pnl_by_hour ≡ s.total_pnl_usd)
    × All (λ p. (s.worst_trade_pnl ≤ℤ p) × (p ≤ℤ s.best_trade_pnl)) (map net_pnl ts)

summary_of-Consistent :
    {D : Type 0} (f : Double D) (sqrt : D → D) (ts : List ArbRecord)
    → Consistent ts (summary_of f sqrt ts)
summary_of-Consistent f sqrt [] = (refl, tt)
summary_of-Consistent f sqrt (t ∷ ts) =
    let pnls = map net_pnl (t ∷ ts) in
    let low = min_from (net_pnl t) pnls in
    let high = max_from (net_pnl t) pnls in
    (
      group_by_hour-hours_total (t ∷ ts) [],
      both low high pnls (min_from-All (net_pnl t) pnls).1 (max_from-All (net_pnl t) pnls).1,
    )

-- The hours of a summary add up to its total profit, and no trade of the ledger earned less than
-- the worst or more than the best one.
pub summary-Consistent :
    {D : Type 0} (f : Double D) (sqrt : D → D) (e : PnlEngine)
    → Consistent e.trades (summary f sqrt e)
unfolding summary
summary-Consistent f sqrt e = summary_of-Consistent f sqrt e.trades
