-- ===== src/Pricing/Impact/Search.antt =====
-- uniswap-v2.analyzer.ts: the binary search ends, and what it returns is the edge of the limit.
use internship_project_peanu.Prelude.{
  ℕ, zero, suc, ◌+◌, ◌-◌, ◌/◌, ◌≤◌, ◌<◌, ◌≡◌, refl, true, false, ◌⊎◌, inl, inr, subst, ap,
  if◌then◌else◌, arith, Bool-cases,
}
use internship_project_peanu.Prelude.Int.{
  ℤ, pos, negsuc, ◌+ℤ◌, ◌-ℤ◌, ◌/ℤ◌, ◌≤ℤ◌, ◌<ℤ◌, ltb_ℤ, leb_ℤ, pos-+ℤ, pos--ℤ, pos-/ℤ,
}
use internship_project_peanu.Prelude.Result.{
  Result, ok, err, insufficient_liquidity, ◌>>=◌, Result-cases,
}
use internship_project_peanu.Core.{Token}
use internship_project_peanu.Pricing.Calculator
use internship_project_peanu.Pricing.Pair
use internship_project_peanu.Pricing.Pair.{UniswapV2Pair}
use internship_project_peanu.Pricing.Impact.{search, reserve_of, find_max_size_for_impact}

module _ (p : UniswapV2Pair) (token_in : Token) (limit : ℤ) where
  -- The impact of selling `n` is computed and at most the limit; or it is computed and above it.
  abbrev pub Within : ℤ → Type 0
  Within n = (i : ℤ) × (Pair.get_price_impact_bps p n token_in ≡ ok i) × (i ≤ℤ limit)

  abbrev pub Beyond : ℤ → Type 0
  Beyond n = (i : ℤ) × (Pair.get_price_impact_bps p n token_in ≡ ok i) × (limit <ℤ i)

  -- A size of 1 to `top` that is within the limit and is `top` itself or has the next size beyond
  -- it; or the error of one of the impact computations.
  abbrev pub Edge : ℤ → Result ℤ → Type 0
  Edge top (ok r) = Within r × (pos 1 ≤ℤ r) × (r ≤ℤ top) × ((r ≡ top) ⊎ Beyond (r +ℤ pos 1))
  Edge top (err e) = (n : ℤ) × (Pair.get_price_impact_bps p n token_in ≡ err e)

  search_mid : (a b : ℕ) → (pos a +ℤ pos b +ℤ pos 1) /ℤ pos 2 ≡ pos ((a + b + 1) / 2)
  search_mid a b = rw (pos-+ℤ a b, pos-+ℤ (a + b) 1) (pos-/ℤ _ _)

  search_step :
      (fuel a b : ℕ)
      → ltb_ℤ (pos a) (pos b) ≡ true
      → let mid : ℤ = pos ((a + b + 1) / 2) in
        search p token_in limit (suc fuel) (pos a) (pos b) ≡ (
          Pair.get_price_impact_bps p mid token_in >>= λ impact.
          search p token_in limit fuel
            (if leb_ℤ impact limit then mid else pos a)
            (if leb_ℤ impact limit then pos b else mid -ℤ pos 1))
  unfolding search
  search_step fuel a b h = rw (h, search) (simp search_mid)

  search_stop :
      (fuel a b : ℕ)
      → ltb_ℤ (pos a) (pos b) ≡ false
      → search p token_in limit (suc fuel) (pos a) (pos b) ≡ ok (pos a)
  unfolding search
  search_stop fuel a b h = rw (h, search)

  -- Not below the other end, and not above it.
  stop_eq : (a b : ℕ) → a ≤ b → ltb_ℤ (pos a) (pos b) ≡ false → pos b ≡ pos a
  stop_eq a b order h = ground arith

  less_of : (a b : ℕ) → ltb_ℤ (pos a) (pos b) ≡ true → a < b
  less_of a b h = ground arith

  next_of : (m : ℕ) → 1 ≤ m → pos (m - 1) +ℤ pos 1 ≡ pos m
  next_of m h = rw (pos-+ℤ (m - 1) 1) (ap pos (omega arith))

  search-Edge :
      (top fuel a b : ℕ)
      → b - a < fuel
      → 1 ≤ a
      → a ≤ b
      → b ≤ top
      → Within (pos a)
      → ((pos b ≡ pos top) ⊎ Beyond (pos b +ℤ pos 1))
      → Edge (pos top) (search p token_in limit fuel (pos a) (pos b))
  search-Edge top zero a b m lo order hi fits over = absurd (omega arith)
  search-Edge top (suc fuel) a b m lo order hi fits over =
      let mid : ℕ = (a + b + 1) / 2 in
      let rest = search-Edge top fuel in
      elim (Bool-cases (ltb_ℤ (pos a) (pos b))) [
        | inl less ↦
            let lt : a < b = less_of a b less in
            rw (search_step fuel a b less)
              (elim (Result-cases (Pair.get_price_impact_bps p (pos mid) token_in)) [
                | inl (i, computed) ↦
                    rw (computed, ◌>>=◌)
                      (elim (Bool-cases (leb_ℤ i limit)) [
                        | inl low ↦ rw low (
                            rest mid b (omega arith) (omega arith) (omega arith) hi
                              (i, computed, ground arith) over)
                        | inr high ↦
                            rw (high, pos--ℤ mid 1 (omega arith))
                              (rest a (mid - 1) (omega arith) lo (omega arith) (omega arith) fits
                                (inr (rw (next_of mid (omega arith)) (i, computed, ground arith))))
                      ])
                | inr (e, failed) ↦ rw (failed, ◌>>=◌) (pos mid, failed)
              ])
        | inr done ↦ rw (search_stop fuel a b done) (
          fits,
          omega arith,
          omega arith,
          subst (λ t. (t ≡ pos top) ⊎ Beyond (t +ℤ pos 1)) (stop_eq a b order done) over,
        )
      ]

  -- Zero when one unit is already beyond the limit; otherwise the edge.
  abbrev pub Answer : ℤ → Result ℤ → Type 0
  Answer top r = ((r ≡ ok (pos 0)) × Beyond (pos 1)) ⊎ Edge top r

  outcome_at :
      (top : ℤ)
      → reserve_of p token_in ≡ top
      → pos 0 <ℤ top
      → Answer top (find_max_size_for_impact p token_in limit)
  unfolding find_max_size_for_impact
  outcome_at (negsuc n) same h = absurd (omega arith)
  outcome_at (pos n) same h = elim (Result-cases (Pair.get_price_impact_bps p (pos 1) token_in)) [
    | inl (i, computed) ↦
        rw (computed, ◌>>=◌)
          (elim (Bool-cases (ltb_ℤ limit i)) [
            | inl high ↦ rw high (inl (refl, (i, refl, ground arith)))
            | inr low ↦
                rw (low, same)
                  (inr (
                    search-Edge n (suc n) 1 n (omega arith) (omega arith) (omega arith)
                      (omega arith) (i, computed, ground arith) (inl refl)))
          ])
    | inr (e, failed) ↦ rw (failed, ◌>>=◌) (inr (pos 1, failed))
  ]

  -- For a token with a positive reserve the search always ends. It returns zero when selling one
  -- unit is beyond the limit, or a size between 1 and the reserve that is within the limit and
  -- that is the whole reserve or has the next size beyond the limit; or else it throws what one of
  -- the impact computations throws.
  pub find_max_size_for_impact-Answer :
      pos 0 <ℤ reserve_of p token_in
      → Answer (reserve_of p token_in) (find_max_size_for_impact p token_in limit)
  find_max_size_for_impact-Answer h = outcome_at (reserve_of p token_in) refl h

-- Selling one unit of a token for which the pool pays nothing makes the search throw, whatever the
-- limit.
pub find_max_size_for_impact_dust :
    (p : UniswapV2Pair) (token_in : Token) (limit : ℤ) {s : ℤ}
    → Pair.get_spot_price p token_in ≡ ok s
    → Pair.get_amount_out p (pos 1) token_in ≡ ok (pos 0)
    → find_max_size_for_impact p token_in limit
      ≡ err (insufficient_liquidity "amountOut must be > 0")
unfolding find_max_size_for_impact Pair.get_price_impact_bps Pair.get_execution_price
    Calculator.get_execution_price
find_max_size_for_impact_dust p token_in limit spot nothing =
    rw (spot, ◌>>=◌) (rw (nothing, ◌>>=◌) refl)
