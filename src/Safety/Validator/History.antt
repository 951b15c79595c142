-- ===== src/Safety/Validator/History.antt =====
-- pre.trade.validator.ts: the price history under validation.
use text.Mathlib.TextPositions.{eq_refl}
use internship_project_peanu.Prelude.{
  ℕ, ◌+◌, ◌≤◌, ◌≡◌, ◌≢◌, refl, true, false, List, [], ◌∷◌, String, str_eq, if◌then◌else◌, length,
  length-append, arith, Bool-cases, ◌⊎◌, inl, inr, ap, ◌∙◌, sym, subst,
}
use internship_project_peanu.Prelude.Int.{ℤ, pos, ◌<ℤ◌}
use internship_project_peanu.Prelude.Double.{Double}
use internship_project_peanu.Prelude.Dict
use internship_project_peanu.Prelude.Dict.{Dict, not_same}
use internship_project_peanu.Strategy.Signal.{Signal}
use internship_project_peanu.Safety.Check.{RiskCheckResult}
use internship_project_peanu.Safety.Validator.{
  PreTradeValidator, or_empty, history_of, shift, push_price, deviates, validate_price_feed,
  validate_signal,
}

-- No pair has more prices on record than the configured size.
pub record IsTrimmed {D : Type 0} (v : PreTradeValidator D) : Type 0 where
  pub at_pair : (pair : String) → length (history_of v pair) ≤ v.price_history_size

length-shift : (ps : List ℤ) → length (shift ps) + 1 ≤ length ps + 1
length-shift [] = omega arith
length-shift (p ∷ ps) = omega arith

length-push_price :
    (size : ℕ) (price : ℤ) (history : List ℤ)
    → length history ≤ size
    → length (push_price size price history) ≤ size
unfolding push_price
length-push_price size price [] h = ground arith
length-push_price size price (p ∷ ps) h = ground (arith, length-append ps (price ∷ []))

module _ {D : Type 0} (f : Double D) where
  -- What a validation may do to the history of each pair.
  abbrev pub Recorded :
      Signal D → PreTradeValidator D → RiskCheckResult × PreTradeValidator D → Type 0
  Recorded s v p =
      (p.0.allowed ≡ true)
        × (pos 0 <ℤ s.cex_price)
        × (pos 0 <ℤ s.dex_price)
        × (pos 0 <ℤ s.size)
        × (history_of p.1 s.pair
            ≡ push_price v.price_history_size s.cex_price (history_of v s.pair))
        × ((j : String) → j ≢ s.pair → history_of p.1 j ≡ history_of v j)
      ⊎ (p.0.allowed ≡ false) × (p.1 ≡ v)

  feed_Recorded :
      (price : ℤ) (pair : String) (v : PreTradeValidator D)
      → let (r, v') = validate_price_feed f price pair v in
        if r.allowed
        then (history_of v' pair ≡ push_price v.price_history_size price (history_of v pair))
          × ((j : String) → j ≢ pair → history_of v' j ≡ history_of v j)
        else (v' ≡ v)
  unfolding validate_price_feed
  feed_Recorded price pair v = elim (Bool-cases (deviates f v price (history_of v pair))) [
    | inl far ↦ rw far refl
    | inr near ↦
        let pushed : List ℤ = push_price v.price_history_size price (history_of v pair) in
        rw near (
          ap or_empty (Dict.get-put pair pair pushed v.price_history) ∙ rw (eq_refl pair) refl,
          λ j differs.
              ap or_empty (Dict.get-put pair j pushed v.price_history)
              ∙ rw (not_same pair j (λ e. differs (sym e))) refl,
        )
  ]

  feed-IsTrimmed :
      (price : ℤ) (pair : String) (v : PreTradeValidator D)
      → IsTrimmed v
      → IsTrimmed (validate_price_feed f price pair v).1
  unfolding validate_price_feed
  feed-IsTrimmed price pair v h = elim (Bool-cases (deviates f v price (history_of v pair))) [
    | inl far ↦ rw far h
    | inr near ↦
        let size : ℕ = v.price_history_size in
        let pushed : List ℤ = push_price size price (history_of v pair) in
        rw near (record {
          at_pair = λ j.
              subst (λ o. length (or_empty o) ≤ size)
                (sym (Dict.get-put pair j pushed v.price_history))
                (elim (Bool-cases (str_eq pair j)) [
                  | inl same ↦
                      rw same (length-push_price size price (history_of v pair) (h.at_pair pair))
                  | inr differs ↦ rw differs (h.at_pair j)
                ]);
        })
  ]

  -- A signal is refused and nothing changes, or it goes on to the price feed.
  signal_cases :
      (now : ℕ) (s : Signal D) (v : PreTradeValidator D)
      → ((validate_signal f now s v).0.allowed ≡ false) × ((validate_signal f now s v).1 ≡ v)
        ⊎ (pos 0 <ℤ s.cex_price)
          × (pos 0 <ℤ s.dex_price)
          × (pos 0 <ℤ s.size)
          × (validate_signal f now s v ≡ validate_price_feed f s.cex_price s.pair v)
  unfolding validate_signal
  signal_cases now s v = ground arith

  -- A signal that is let through has positive prices and a positive size, its price is appended to
  -- the history of its pair, cut to the configured size, and no other history changes; a signal
  -- that is refused changes nothing.
  pub validate_signal-Recorded :
      (now : ℕ) (s : Signal D) (v : PreTradeValidator D) → Recorded s v (validate_signal f now s v)
  validate_signal-Recorded now s v = elim (signal_cases now s v) [
    | inl (refused, same) ↦ inr (refused, same)
    | inr (cex, dex, size, feed) ↦
        subst (Recorded s v) (sym feed)
          (elim (Bool-cases (validate_price_feed f s.cex_price s.pair v).0.allowed) [
            | inl accepted ↦
                let (here, others) = (rw accepted at (feed_Recorded s.cex_price s.pair v)) in
                inl (accepted, cex, dex, size, here, others)
            | inr refused ↦ inr (refused, rw refused at (feed_Recorded s.cex_price s.pair v))
          ])
  ]

  -- Validation keeps every price history within the configured size.
  pub validate_signal-IsTrimmed :
      (now : ℕ) (s : Signal D) (v : PreTradeValidator D)
      → IsTrimmed v
      → IsTrimmed (validate_signal f now s v).1
  validate_signal-IsTrimmed now s v h = elim (signal_cases now s v) [
    | inl (_, same) ↦ rw same h
    | inr (_, _, _, feed) ↦ rw feed (feed-IsTrimmed s.cex_price s.pair v h)
  ]
