-- ===== src/Pricing/Routing/Best.antt =====
-- routing.service.ts: the route that `findBestRoute` returns.
use internship_project_peanu.Prelude.{
  ◌≡◌, List, [], ◌∷◌, if◌then◌else◌, arith, ap, ◌∙◌, sym, subst, ◌⊎◌, inl, inr, Bool-cases, ℕ,
}
use internship_project_peanu.Prelude.Int.{ℤ, ltb_ℤ, ◌≤ℤ◌}
use internship_project_peanu.Prelude.Result.{
  Error, no_route_found, Result, ok, err, ◌>>=◌, Result-cases,
}
use internship_project_peanu.Core.{Token}
use internship_project_peanu.Pricing.Routing.{
  Route, RouteFinder, find_all_routes, net_output, best_from, best_of, find_best_route,
}

-- A route is one of a list.
abbrev pub OneOf : Route → List Route → Type 0
OneOf r [] = ⊥
OneOf r (x ∷ xs) = (r ≡ x) ⊎ OneOf r xs

-- Every route has a net output, at most `n`.
abbrev pub AtMost : (Route → Result ℤ) → ℤ → List Route → Type 0
AtMost net n [] = Unit
AtMost net n (x ∷ xs) = ((m : ℤ) × (net x ≡ ok m) × (m ≤ℤ n)) × AtMost net n xs

bound_trans : (a b c : ℤ) → a ≤ℤ b → b ≤ℤ c → a ≤ℤ c
bound_trans a b c h k = omega (arith, h, k)

-- The result of the loop is the first candidate or one of the list, with its net output, which is
-- at least that of the candidate and of every route of the list.
abbrev Best : (Route → Result ℤ) → List Route → Route × ℤ → Route × ℤ → Type 0
Best net rs start best =
    ((best ≡ start) ⊎ (OneOf best.0 rs × (net best.0 ≡ ok best.1)))
    × (start.1 ≤ℤ best.1)
    × AtMost net best.1 rs

value_or : {A : Type 0} → A → Result A → A
value_or d (ok a) = a
value_or d (err e) = d

ok_injective : {A : Type 0} (a b : A) → ok a ≡ ok b → a ≡ b
unfolding value_or
ok_injective a b h = ap (value_or a) h

err_not_ok : {A : Type 0} (e : Error) (a : A) → err e ≡ ok a → ⊥
err_not_ok e a h = ground arith

extend :
    (net : Route → Result ℤ) (r : Route) (rs : List Route) (n : ℤ) (start best : Route × ℤ)
    → net r ≡ ok n
    → Best net rs (if ltb_ℤ start.1 n then (r, n) else start) best
    → Best net (r ∷ rs) start best
extend net r rs n start best e h = elim (Bool-cases (ltb_ℤ start.1 n)) [
  | inl better ↦
      let (whence, above, rest) = (rw better at h) in
      (
        elim whence [
          | inl same ↦
              inr
                (inl (ap (λ b. b.0) same), ap (λ b. net b.0) same ∙ e ∙ ap (λ b. ok b.1) (sym same))
          | inr (among, value) ↦ inr (inr among, value)
        ],
        bound_trans start.1 n best.1 (ground arith) above,
        ((n, e, above), rest),
      )
  | inr kept ↦
      let (whence, above, rest) = (rw kept at h) in
      (
        elim whence [ inl same ↦ inl same | inr (among, value) ↦ inr (inr among, value) ],
        above,
        ((n, e, bound_trans n start.1 best.1 (ground arith) above), rest),
      )
]

best_from-Best :
    (net : Route → Result ℤ) (rs : List Route) (start best : Route × ℤ)
    → best_from net rs start ≡ ok best
    → Best net rs start best
unfolding best_from
best_from-Best net [] start best h =
    let same : start ≡ best = ok_injective start best h in
    (inl (sym same), subst (λ b. start.1 ≤ℤ b.1) same (omega arith), tt)
best_from-Best net (r ∷ rs) start best h = elim (Result-cases (net r)) [
  | inl (n, e) ↦ extend net r rs n start best e (best_from-Best net rs _ best (rw (e, ◌>>=◌) at h))
  | inr (x, e) ↦ absurd (err_not_ok x best (rw (e, ◌>>=◌) at h))
]

among :
    (net : Route → Result ℤ) (rs : List Route) (best : Route × ℤ)
    → best_of net rs ≡ ok best
    → OneOf best.0 rs × (net best.0 ≡ ok best.1) × AtMost net best.1 rs
among net [] best h = absurd (err_not_ok no_route_found best h)
among net (r ∷ rs) best h = elim (Result-cases (net r)) [
  | inl (n, e) ↦
      let (whence, above, rest) = best_from-Best net rs (r, n) best (rw (e, ◌>>=◌) at h) in
      elim whence [
        | inl same ↦ (
          inl (ap (λ b. b.0) same),
          ap (λ b. net b.0) same ∙ e ∙ ap (λ b. ok b.1) (sym same),
          ((n, e, above), rest),
        )
        | inr (later, value) ↦ (inr later, value, ((n, e, above), rest))
      ]
  | inr (x, e) ↦ absurd (err_not_ok x best (rw (e, ◌>>=◌) at h))
]

-- A route that is returned as the best is one of the routes found, with its net output, and every
-- route found has a net output that is at most that; where the net output of a route cannot be
-- computed no route is returned.
pub find_best_route_maximal :
    (r : RouteFinder) (token_in token_out : Token) (amount_in gas_price : ℤ) (max_hops : ℕ)
    (eth_price : ℤ) (best : Route × ℤ)
    → find_best_route r token_in token_out amount_in gas_price max_hops eth_price ≡ ok best
    → let routes = find_all_routes r token_in token_out max_hops in
      let net = λ (route : Route). net_output route amount_in gas_price eth_price in
      OneOf best.0 routes × (net best.0 ≡ ok best.1) × AtMost net best.1 routes
unfolding find_best_route
find_best_route_maximal r token_in token_out amount_in gas_price max_hops eth_price best h =
    among (λ route. net_output route amount_in gas_price eth_price)
      (find_all_routes r token_in token_out max_hops) best h
