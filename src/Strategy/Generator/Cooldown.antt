-- ===== src/Strategy/Generator/Cooldown.antt =====
-- signal.generator.ts: the time between two signals for a pair.
use text.Mathlib.TextPositions.{eq_refl}
use internship_project_peanu.Prelude.{
  ℕ, ◌+◌, ◌<◌, ◌≡◌, ◌≢◌, refl, Option, none, some, List, [], ◌∷◌, String, ltb, lt→ltb, All, if_elim,
  if_true, ap, ◌∙◌, if◌then◌else◌,
}
use internship_project_peanu.Prelude.Int.{ℤ, ltb_ℤ, eqb_ℤ, pos, ◌*ℤ◌, ◌/ℤ◌}
use internship_project_peanu.Prelude.Result.{Result, ok, err}
use internship_project_peanu.Prelude.Double.{Double}
use internship_project_peanu.Prelude.Dict
use internship_project_peanu.Prelude.Dict.{not_same}
use internship_project_peanu.Core.{price_scale}
use internship_project_peanu.Strategy.Signal.{Signal}
use internship_project_peanu.Strategy.Fees.{total_fee}
use internship_project_peanu.Strategy.Generator.{
  SignalGenerator, Market, signal_of, evaluate, chosen, with_prices, fetch_prices, generate_core,
  generate, remember, note_prices, prices_changed, fetched_gas, cached_gas, live_gas,
  fetch_live_gas_cost, in_cooldown, time_or_zero,
}
use internship_project_peanu.Strategy.Levels.{PriceLevels, Choice, choose}

module _ {D : Type 0} where
  -- Neither the times of the last signals nor the cooldown changed.
  abbrev Kept : SignalGenerator D → SignalGenerator D → Type 0
  Kept g g' = (g'.last_signal_time ≡ g.last_signal_time) × (g'.cooldown_ms ≡ g.cooldown_ms)

  note-Kept :
      (pair : String) (p : PriceLevels) (g g' : SignalGenerator D)
      → Kept g g'
      → Kept g (note_prices pair p g')
  note-Kept pair p g g' h = if_elim (Kept g) (prices_changed pair p g') _ _ (λ _. h) (λ _. h)

  fetched-Kept :
      (eth : ℤ) (now : ℕ) (r : Result ℤ) (g : SignalGenerator D)
      → Kept g (fetched_gas eth now r g).1
  fetched-Kept eth now (err e) g = (refl, refl)
  fetched-Kept eth now (ok fee) g = (refl, refl)

  cached-Kept :
      (m : Market) (eth : ℤ) (r : Result ℤ) (o : Option (ℤ × ℕ)) (g : SignalGenerator D)
      → Kept g (cached_gas m eth r o g).1
  cached-Kept m eth r none g = fetched-Kept eth m.gas_fetched r g
  cached-Kept m eth r (some (value, ts)) g =
      if_elim (λ (x : Option ℤ × SignalGenerator D). Kept g x.1) (ltb m.gas_check (ts + 30_000)) _ _
        (λ _. (refl, refl)) (λ _. fetched-Kept eth m.gas_fetched r g)

  live-Kept :
      (m : Market) (eth : ℤ) (o : Option (Result ℤ)) (g : SignalGenerator D)
      → Kept g (live_gas m eth o g).1
  live-Kept m eth none g = (refl, refl)
  live-Kept m eth (some r) g =
      if_elim (λ (x : Option ℤ × SignalGenerator D). Kept g x.1) (eqb_ℤ eth (pos 0)) _ _
        (λ _. (refl, refl)) (λ _. cached-Kept m eth r g.gas_cache g)

module _ {D : Type 0} (f : Double D) where
  evaluate-Kept :
      (m : Market) (pair : String) (p : PriceLevels) (c : Choice D) (g : SignalGenerator D)
      → Kept g (evaluate f m pair p c g).1
  unfolding evaluate fetch_live_gas_cost
  evaluate-Kept m pair p c g =
      let gas = live_gas m p.cex_bid m.max_fee_wei g in
      let s : Signal D =
        signal_of f m pair p c (total_fee g.fees ((p.size *ℤ c.cex_price) /ℤ price_scale) gas.0)
          g in
      if_elim (λ (x : Option (Signal D) × SignalGenerator D). Kept g x.1)
        (ltb_ℤ s.expected_net_pnl g.min_profit) (none, note_prices pair p gas.1) (some s, gas.1)
        (λ _. note-Kept pair p g gas.1 (live-Kept m p.cex_bid m.max_fee_wei g))
        (λ _. live-Kept m p.cex_bid m.max_fee_wei g)

  chosen-Kept :
      (m : Market) (pair : String) (p : PriceLevels) (o : Option (Choice D)) (g : SignalGenerator D)
      → Kept g (chosen f m pair p o g).1
  chosen-Kept m pair p none g = note-Kept pair p g g (refl, refl)
  chosen-Kept m pair p (some c) g = evaluate-Kept m pair p c g

  priced-Kept :
      (m : Market) (pair : String) (r : Result (Option PriceLevels)) (g : SignalGenerator D)
      → Kept g (with_prices f m pair r g).1
  priced-Kept m pair (err e) g = (refl, refl)
  priced-Kept m pair (ok none) g = (refl, refl)
  priced-Kept m pair (ok (some p)) g = chosen-Kept m pair p (choose f g.min_spread_bps p) g

  -- The last time is that of a signal, if one came; it stays for another pair.
  abbrev Timed :
      String → SignalGenerator D → Result (Option (Signal D)) × SignalGenerator D → Type 0
  Timed j g x =
      (Dict.get j x.1.last_signal_time ≡ Dict.get j g.last_signal_time)
      × (x.1.cooldown_ms ≡ g.cooldown_ms)

  remember-Timed :
      (m : Market) (pair j : String) (g : SignalGenerator D)
      (x : Result (Option (Signal D)) × SignalGenerator D)
      → pair ≢ j
      → Kept g x.1
      → Timed j g (remember f m pair x)
  remember-Timed m pair j g (err e, g') differ h = (ap (Dict.get j) h.0, h.1)
  remember-Timed m pair j g (ok none, g') differ h = (ap (Dict.get j) h.0, h.1)
  remember-Timed m pair j g (ok (some s), g') differ h = (
    Dict.get-put pair j m.recorded g'.last_signal_time
        ∙ ap (λ b. if b then some m.recorded else Dict.get j g'.last_signal_time)
            (not_same pair j differ)
        ∙ ap (Dict.get j) h.0,
    h.1,
  )

  other-Timed :
      (m : Market) (pair j : String) (g : SignalGenerator D)
      → pair ≢ j
      → Timed j g (generate f m pair g)
  unfolding generate generate_core
  other-Timed m pair j g differ =
      if_elim (Timed j g) (in_cooldown m.cooldown_check pair g) (ok none, g)
        (remember f m pair (generate_core f m pair g)) (λ _. (refl, refl))
        (λ _.
          remember-Timed m pair j g (generate_core f m pair g) differ
            (priced-Kept m pair (fetch_prices f m pair g) g))

  -- Calls for other pairs.
  abbrev pub calls : List (Market × String) → SignalGenerator D → SignalGenerator D
  calls [] g = g
  calls ((m, pair) ∷ rest) g = calls rest (generate f m pair g).1

  calls-Timed :
      (cs : List (Market × String)) (j : String) (g : SignalGenerator D)
      → All (λ c. c.1 ≢ j) cs
      → (Dict.get j (calls cs g).last_signal_time ≡ Dict.get j g.last_signal_time)
        × ((calls cs g).cooldown_ms ≡ g.cooldown_ms)
  calls-Timed [] j g h = (refl, refl)
  calls-Timed ((m, pair) ∷ rest) j g h =
      let (time, cooldown) = other-Timed m pair j g h.0 in
      let (time', cooldown') = calls-Timed rest j (generate f m pair g).1 h.1 in
      (time' ∙ time, cooldown' ∙ cooldown)

  -- A signal was returned.
  abbrev pub Returned : Result (Option (Signal D)) → Type 0
  Returned (err e) = ⊥
  Returned (ok none) = ⊥
  Returned (ok (some s)) = Unit

  remember-stamped :
      (m : Market) (pair : String) (g : SignalGenerator D)
      (x : Result (Option (Signal D)) × SignalGenerator D)
      → Kept g x.1
      → Returned (remember f m pair x).0
      → (Dict.get pair (remember f m pair x).1.last_signal_time ≡ some m.recorded)
        × ((remember f m pair x).1.cooldown_ms ≡ g.cooldown_ms)
  remember-stamped m pair g (err e, g') h r = absurd r
  remember-stamped m pair g (ok none, g') h r = absurd r
  remember-stamped m pair g (ok (some s), g') h r = (
    Dict.get-put pair pair m.recorded g'.last_signal_time
        ∙ ap (λ b. if b then some m.recorded else Dict.get pair g'.last_signal_time) (eq_refl pair),
    h.1,
  )

  generate-stamped :
      (m : Market) (pair : String) (g : SignalGenerator D)
      → Returned (generate f m pair g).0
      → (Dict.get pair (generate f m pair g).1.last_signal_time ≡ some m.recorded)
        × ((generate f m pair g).1.cooldown_ms ≡ g.cooldown_ms)
  unfolding generate generate_core
  generate-stamped m pair g =
      if_elim
        (λ (x : Result (Option (Signal D)) × SignalGenerator D).
          Returned x.0
          → (Dict.get pair x.1.last_signal_time ≡ some m.recorded)
            × (x.1.cooldown_ms ≡ g.cooldown_ms))
        (in_cooldown m.cooldown_check pair g) (ok none, g)
        (remember f m pair (generate_core f m pair g)) (λ _ r. absurd r)
        (λ _.
          remember-stamped m pair g (generate_core f m pair g)
            (priced-Kept m pair (fetch_prices f m pair g) g))

  -- After a signal for a pair, no call for that pair returns a signal or changes anything before the
  -- cooldown is over, whatever calls for other pairs are made in between.
  pub generate_cooldown :
      (m m' : Market) (pair : String) (g : SignalGenerator D) (cs : List (Market × String))
      → Returned (generate f m pair g).0
      → All (λ c. c.1 ≢ pair) cs
      → m'.cooldown_check < m.recorded + g.cooldown_ms
      → let later = calls cs (generate f m pair g).1 in generate f m' pair later ≡ (ok none, later)
  unfolding generate in_cooldown
  generate_cooldown m m' pair g cs returned others soon =
      let (stamp, cooldown) = generate-stamped m pair g returned in
      let (time, same) = calls-Timed cs pair (generate f m pair g).1 others in
      let later : SignalGenerator D = calls cs (generate f m pair g).1 in
      if_true
        (ltb m'.cooldown_check
          (time_or_zero (Dict.get pair later.last_signal_time) + later.cooldown_ms))
        _ _
        (ap (λ o. ltb m'.cooldown_check (time_or_zero o + later.cooldown_ms)) (time ∙ stamp)
          ∙ ap (λ n. ltb m'.cooldown_check (m.recorded + n)) (same ∙ cooldown)
          ∙ lt→ltb m'.cooldown_check (m.recorded + g.cooldown_ms) soon)
