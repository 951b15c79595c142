-- ===== src/Strategy/Generator/Sizes.antt =====
-- signal.generator.ts: the candidate sizes, and the best of them.
use native.Mathlib.Nat.{div-le_of_le-mul, mul_comm, mul-le-mul_left}
use internship_project_peanu.Prelude.{
  ℕ, zero, suc, ◌+◌, ◌-◌, ◌*◌, ◌/◌, ◌≤◌, ◌<◌, ◌≡◌, refl, Option, none, some, List, [], ◌∷◌, All,
  if◌then◌else◌, if_elim, arith, ap, sym, subst, Bool-cases, inl, inr,
}
use internship_project_peanu.Prelude.Int.{ℤ, pos, ◌*ℤ◌, ◌/ℤ◌, ltb_ℤ, eqb_ℤ, ◌≤ℤ◌, pos--ℤ, pos-+ℤ}
use internship_project_peanu.Prelude.Result.{Error, Result, ok, err, ◌>>=◌, Result-cases}
use internship_project_peanu.Strategy.Levels.{
  PriceLevels, sizes_from, at_least_two, candidate_sizes, better, best_prices,
}

-- A size of the given range.
abbrev pub Between : ℕ → ℕ → ℤ → Type 0
Between low high s = (n : ℕ) × (s ≡ pos n) × (low ≤ n) × (n ≤ high)

share_small : (range i last : ℕ) → i ≤ last → range * i / last ≤ range
share_small range i last le =
    div-le_of_le-mul last (rw (mul_comm last range) (mul-le-mul_left range le))

sizes-Between :
    (low range last count i : ℕ)
    → 0 < last
    → i + count ≤ last + 1
    → All (Between low (low + range)) (sizes_from (pos low) (pos range) last count i)
unfolding sizes_from ◌*ℤ◌ ◌/ℤ◌
sizes-Between low range last zero i h room = tt
sizes-Between low range last (suc count) i h room = (
  (
    low + range * i / last,
    pos-+ℤ low (range * i / last),
    omega arith,
    omega (arith, share_small range i last (omega (arith, room))),
  ),
  sizes-Between low range last count (i + 1) h (omega (arith, room)),
)

two_at_least : (n : ℕ) → 2 ≤ at_least_two n
two_at_least n = ground arith

-- For a range of natural amounts every candidate size lies in it.
pub candidate_sizes-Between :
    (low high steps : ℕ)
    → low ≤ high
    → All (Between low high) (candidate_sizes (pos low) (pos high) steps)
unfolding candidate_sizes
candidate_sizes-Between low high steps h =
    if_elim (All (Between low high)) (eqb_ℤ (pos low) (pos high)) _ _
      (λ _. ((low, refl, omega arith, h), tt))
      (λ _.
        let n : ℕ = at_least_two steps in
        let sizes =
          sizes-Between low (high - low) (n - 1) n 0 (omega (arith, two_at_least steps))
            (omega (arith, two_at_least steps)) in
        subst (λ range. All (Between low high) (sizes_from (pos low) range (n - 1) n 0))
          (sym (pos--ℤ high low h))
          (subst
            (λ top. All (Between low top) (sizes_from (pos low) (pos (high - low)) (n - 1) n 0))
            (omega (arith, h)) sizes))

module _ (compute : ℤ → Result (Option PriceLevels)) (estimate : PriceLevels → ℤ) where
  -- The best so far is kept with its estimate.
  abbrev pub IsEstimated : Option (PriceLevels × ℤ) → Type 0
  IsEstimated none = Unit
  IsEstimated (some (p, n)) = n ≡ estimate p

  -- What a candidate gives is at most the best.
  abbrev pub Covered : Option (PriceLevels × ℤ) → Option PriceLevels → Type 0
  Covered r none = Unit
  Covered none (some q) = ⊥
  Covered (some (p, n)) (some q) = estimate q ≤ℤ n

  abbrev NoWorse : Option (PriceLevels × ℤ) → Option (PriceLevels × ℤ) → Type 0
  NoWorse none r = Unit
  NoWorse (some b) none = ⊥
  NoWorse (some (b, k)) (some (p, n)) = k ≤ℤ n

  -- Every candidate has been computed, to nothing or to prices that the best covers.
  abbrev pub Candidate : Option (PriceLevels × ℤ) → ℤ → Type 0
  Candidate r s = (o : Option PriceLevels) × (compute s ≡ ok o) × Covered r o

  kept : (k n e : ℤ) → (if ltb_ℤ k e then e else k) ≤ℤ n → (k ≤ℤ n) × (e ≤ℤ n)
  kept k n e h = ground arith

  better-IsEstimated :
      (o : Option PriceLevels) (best : Option (PriceLevels × ℤ))
      → IsEstimated best
      → IsEstimated (better estimate o best)
  better-IsEstimated none best h = h
  better-IsEstimated (some p) none h = refl
  better-IsEstimated (some p) (some (b, n)) h =
      if_elim IsEstimated (ltb_ℤ n (estimate p)) _ _ (λ _. refl) (λ _. h)

  better-NoWorse :
      (o : Option PriceLevels) (best r : Option (PriceLevels × ℤ))
      → NoWorse (better estimate o best) r
      → NoWorse best r × Covered r o
  better-NoWorse none best r h = (h, tt)
  better-NoWorse (some p) none none h = (tt, h)
  better-NoWorse (some p) none (some (q, n)) h = (tt, h)
  better-NoWorse (some p) (some (b, k)) none h = elim (Bool-cases (ltb_ℤ k (estimate p))) [
    | inl more ↦ absurd (rw more at h)
    | inr less ↦ absurd (rw less at h)
  ]
  better-NoWorse (some p) (some (b, k)) (some (q, n)) h = elim (Bool-cases (ltb_ℤ k (estimate p))) [
    | inl more ↦ let above : estimate p ≤ℤ n = (rw more at h) in (ground arith, above)
    | inr less ↦ let above : k ≤ℤ n = (rw less at h) in (above, ground arith)
  ]

  ok_option : (a b : Option (PriceLevels × ℤ)) → ok a ≡ ok b → a ≡ b
  ok_option a b h =
      ap (λ (r : Result (Option (PriceLevels × ℤ))). elim r [ ok x ↦ x | err e ↦ a ]) h

  no_result : (e : Error) (r : Option (PriceLevels × ℤ)) → err e ≡ ok r → ⊥
  no_result e r h = ground arith

  same-NoWorse : (r : Option (PriceLevels × ℤ)) → NoWorse r r
  same-NoWorse none = tt
  same-NoWorse (some (p, n)) = omega arith

  searched :
      (sizes : List ℤ) (best r : Option (PriceLevels × ℤ))
      → IsEstimated best
      → best_prices compute estimate sizes best ≡ ok r
      → IsEstimated r × NoWorse best r × All (Candidate r) sizes
  unfolding best_prices
  searched [] best r h e =
      let same : best ≡ r = ok_option best r e in
      (subst IsEstimated same h, subst (NoWorse best) same (same-NoWorse best), tt)
  searched (s ∷ ss) best r h e = elim (Result-cases (compute s)) [
    | inl (o, computed) ↦
        let (estimated, no_worse, rest) =
          searched ss (better estimate o best) r (better-IsEstimated o best h)
            (rw (computed, ◌>>=◌) at e) in
        let (before, covered) = better-NoWorse o best r no_worse in
        (estimated, before, ((o, computed, covered), rest))
    | inr (x, failed) ↦ absurd (no_result x r (rw (failed, ◌>>=◌) at e))
  ]

  -- The sweep over the sizes that ends with a result has computed every size, and its result has the
  -- highest estimate of the prices computed; there is none only if there were none.
  pub best_prices_maximal :
      (sizes : List ℤ) (r : Option (PriceLevels × ℤ))
      → best_prices compute estimate sizes none ≡ ok r
      → IsEstimated r × All (Candidate r) sizes
  best_prices_maximal sizes r e =
      let (estimated, _, all) = searched sizes none r tt e in (estimated, all)
