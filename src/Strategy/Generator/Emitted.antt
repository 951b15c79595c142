-- ===== src/Strategy/Generator/Emitted.antt =====
-- signal.generator.ts: what every signal that is emitted satisfies.
use internship_project_peanu.Prelude.{
  ◌+◌, ◌≡◌, refl, Bool, true, false, ◌&&◌, Option, none, some, String, if_elim, arith,
}
use internship_project_peanu.Prelude.Int.{ℤ, ◌-ℤ◌, ◌*ℤ◌, ◌/ℤ◌, ltb_ℤ, leb_ℤ, ◌≤ℤ◌}
use internship_project_peanu.Prelude.Result.{Result, ok, err}
use internship_project_peanu.Prelude.Double.{Double}
use internship_project_peanu.Core.{price_scale}
use internship_project_peanu.Executor.Engine.Context.{split_pair}
use internship_project_peanu.Strategy.Signal.{Signal}
use internship_project_peanu.Strategy.Fees.{total_fee}
use internship_project_peanu.Strategy.Generator.{
  SignalGenerator, Market, check_inventory, signal_of, evaluate, chosen, with_prices, generate_core,
  generate, remember, fetch_prices, note_prices, fetch_live_gas_cost, in_cooldown,
}
use internship_project_peanu.Strategy.Levels.{
  PriceLevels, Choice, gross_of, choose, cex_choice, dex_choice, spread_of,
}

and_right : (a b : Bool) → (a && b) ≡ true → b ≡ true
and_right a b h = ground arith

enough : (a b : ℤ) → ltb_ℤ a b ≡ false → b ≤ℤ a
enough a b h = ground arith

module _ {D : Type 0} (f : Double D) where
  pub record IsEmitted (m : Market) (pair : String) (g : SignalGenerator D) (s : Signal D)
      : Type 0 where
    pub named : s.pair ≡ pair
    pub profit : g.min_profit ≤ℤ s.expected_net_pnl
    pub net : s.expected_net_pnl ≡ s.expected_gross_pnl -ℤ s.expected_fees
    pub gross : s.expected_gross_pnl ≡ gross_of s.direction s.size s.cex_price s.dex_price
    pub spread : f.le g.min_spread_bps s.spread_bps ≡ true
    pub limit : s.within_limits ≡ leb_ℤ ((s.size *ℤ s.cex_price) /ℤ price_scale) g.max_position
    pub covered :
        s.inventory_ok
        ≡ check_inventory s.direction (split_pair pair).0 (split_pair pair).1 s.size s.cex_price g
    pub lifetime : s.expiry ≡ s.timestamp + g.signal_ttl_ms

  -- For a signal, if there is one.
  abbrev pub MaybeEmitted : Market → String → SignalGenerator D → Option (Signal D) → Type 0
  MaybeEmitted m pair g none = Unit
  MaybeEmitted m pair g (some s) = IsEmitted m pair g s

  abbrev pub ResultEmitted :
      Market → String → SignalGenerator D → Result (Option (Signal D)) → Type 0
  ResultEmitted m pair g (err e) = Unit
  ResultEmitted m pair g (ok o) = MaybeEmitted m pair g o

  abbrev WideEnough : D → Option (Choice D) → Type 0
  WideEnough least none = Unit
  WideEnough least (some c) = f.le least c.spread_bps ≡ true

  choose-WideEnough : (least : D) (p : PriceLevels) → WideEnough least (choose f least p)
  unfolding choose
  choose-WideEnough least p =
      let cex : D = spread_of f p.cex_ask p.dex_sell_price in
      let dex : D = spread_of f p.dex_buy_price p.cex_bid in
      if_elim (WideEnough least) (f.lt dex cex && f.le least cex) (some (cex_choice f p)) _
        (λ h. and_right (f.lt dex cex) (f.le least cex) h)
        (λ _.
          if_elim (WideEnough least) (f.le least dex) (some (dex_choice f p)) none (λ h. h)
            (λ _. tt))

  evaluate-MaybeEmitted :
      (m : Market) (pair : String) (p : PriceLevels) (c : Choice D) (g : SignalGenerator D)
      → f.le g.min_spread_bps c.spread_bps ≡ true
      → MaybeEmitted m pair g (evaluate f m pair p c g).0
  unfolding evaluate signal_of
  evaluate-MaybeEmitted m pair p c g wide =
      let gas = fetch_live_gas_cost m p.cex_bid g in
      let fee : ℤ = total_fee g.fees ((p.size *ℤ c.cex_price) /ℤ price_scale) gas.0 in
      let s : Signal D = signal_of f m pair p c fee g in
      if_elim (λ (x : Option (Signal D) × SignalGenerator D). MaybeEmitted m pair g x.0)
        (ltb_ℤ s.expected_net_pnl g.min_profit) (none, note_prices pair p gas.1) (some s, gas.1)
        (λ _. tt)
        (λ h. record {
          named = refl;
          profit = enough s.expected_net_pnl g.min_profit h;
          net = refl;
          gross = refl;
          spread = wide;
          limit = refl;
          covered = refl;
          lifetime = refl;
        })

  chosen-MaybeEmitted :
      (m : Market) (pair : String) (p : PriceLevels) (o : Option (Choice D)) (g : SignalGenerator D)
      → WideEnough g.min_spread_bps o
      → MaybeEmitted m pair g (chosen f m pair p o g).0
  chosen-MaybeEmitted m pair p none g wide = tt
  chosen-MaybeEmitted m pair p (some c) g wide = evaluate-MaybeEmitted m pair p c g wide

  priced-ResultEmitted :
      (m : Market) (pair : String) (r : Result (Option PriceLevels)) (g : SignalGenerator D)
      → ResultEmitted m pair g (with_prices f m pair r g).0
  priced-ResultEmitted m pair (err e) g = tt
  priced-ResultEmitted m pair (ok none) g = tt
  priced-ResultEmitted m pair (ok (some p)) g =
      chosen-MaybeEmitted m pair p (choose f g.min_spread_bps p) g
        (choose-WideEnough g.min_spread_bps p)

  remembered-ResultEmitted :
      (m : Market) (pair : String) (g : SignalGenerator D)
      (x : Result (Option (Signal D)) × SignalGenerator D)
      → ResultEmitted m pair g x.0
      → ResultEmitted m pair g (remember f m pair x).0
  remembered-ResultEmitted m pair g (err e, g') h = tt
  remembered-ResultEmitted m pair g (ok none, g') h = tt
  remembered-ResultEmitted m pair g (ok (some s), g') h = h

  -- A signal that `generate` returns is for the pair asked for; its net profit is the gross profit
  -- of its direction, size and prices less the fees, and at least the least profit; its spread is at
  -- least the least spread; it is marked as within the limits exactly when its value is at most the
  -- largest position, and as covered exactly when the inventory check says so; and it expires after
  -- the time to live.
  pub generate-ResultEmitted :
      (m : Market) (pair : String) (g : SignalGenerator D)
      → ResultEmitted m pair g (generate f m pair g).0
  unfolding generate generate_core
  generate-ResultEmitted m pair g =
      if_elim (λ (x : Result (Option (Signal D)) × SignalGenerator D). ResultEmitted m pair g x.0)
        (in_cooldown m.cooldown_check pair g) (ok none, g)
        (remember f m pair (generate_core f m pair g)) (λ _. tt)
        (λ _.
          remembered-ResultEmitted m pair g (generate_core f m pair g)
            (priced-ResultEmitted m pair (fetch_prices f m pair g) g))
