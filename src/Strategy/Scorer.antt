-- ===== src/Strategy/Scorer.antt =====
-- strategy/scorer/scorer.service.ts: `SignalScorer`. `Date.now()` is an argument of `applyDecay`.
-- `Math.min` and `Math.max` are comparisons; the weighted score is a number that can be rounded.
pub mod History
use internship_project_peanu.Prelude.{
  ℕ, ◌-◌, Bool, true, false, ◌||◌, ◌&&◌, Option, none, some, List, [], ◌∷◌, ◌++◌, String, str_eq,
  ltb, if◌then◌else◌, length, keep, drop,
}
use internship_project_peanu.Prelude.Int.{ℤ, pos, ◌-ℤ◌}
use internship_project_peanu.Prelude.Double.{Double}
use internship_project_peanu.Strategy.Signal.{Signal}
use internship_project_peanu.Inventory.Rebalancer.{CheckResult}
use internship_project_peanu.Executor.Engine.Context.{split_pair}

-- What is left out takes its default.
pub record ScorerConfig (D : Type 0) : Type 0 where
  pub spread_weight : Option D
  pub liquidity_weight : Option D
  pub inventory_weight : Option D
  pub history_weight : Option D
  pub excellent_spread_bps : Option D
  pub min_spread_bps : Option D

pub record SignalScorer (D : Type 0) : Type 0 where
  pub spread_weight : D
  pub liquidity_weight : D
  pub inventory_weight : D
  pub history_weight : D
  pub excellent_spread_bps : D
  pub min_spread_bps : D
  -- pairs and whether the execution succeeded
  pub recent_results : List (String × Bool)

-- `a ?? b`
abbrev pub or_else : {D : Type 0} → Option D → D → D
or_else none d = d
or_else (some x) d = x

-- `slice(-n)`, for a positive `n`.
abbrev pub last_n : {A : Type 0} → ℕ → List A → List A
last_n n xs = drop (length xs - n) xs

abbrev pub any_needs_rebalance : {D : Type 0} → String → List (CheckResult D) → Bool
any_needs_rebalance base [] = false
any_needs_rebalance base (c ∷ cs) =
    str_eq c.asset base && c.needs_rebalance || any_needs_rebalance base cs

module _ {D : Type 0} where
  unfoldable pub record_result : String → Bool → SignalScorer D → SignalScorer D
  record_result pair success s =
      let results = s.recent_results ++ (pair, success) ∷ [] in
      record s { recent_results = if ltb 100 (length results) then last_n 100 results else results }

module _ {D : Type 0} (f : Double D) where
  open f use {of_ℤ, add, sub, mul, quot, lt, le, round}

  unfoldable pub new : ScorerConfig D → SignalScorer D
  new config = record {
    spread_weight = or_else config.spread_weight (quot (of_ℤ (pos 4)) (of_ℤ (pos 10)));
    liquidity_weight = or_else config.liquidity_weight (quot (of_ℤ (pos 2)) (of_ℤ (pos 10)));
    inventory_weight = or_else config.inventory_weight (quot (of_ℤ (pos 2)) (of_ℤ (pos 10)));
    history_weight = or_else config.history_weight (quot (of_ℤ (pos 2)) (of_ℤ (pos 10)));
    excellent_spread_bps = or_else config.excellent_spread_bps (of_ℤ (pos 100));
    min_spread_bps = or_else config.min_spread_bps (of_ℤ (pos 30));
    recent_results = [];
  }

  unfoldable pub score_spread : D → SignalScorer D → D
  score_spread spread_bps s =
      if le spread_bps s.min_spread_bps
      then of_ℤ (pos 0)
      else if le s.excellent_spread_bps spread_bps
      then of_ℤ (pos 100)
      else mul
          (quot (sub spread_bps s.min_spread_bps) (sub s.excellent_spread_bps s.min_spread_bps))
          (of_ℤ (pos 100))

  unfoldable pub score_inventory : Signal D → List (CheckResult D) → D
  score_inventory signal checks =
      if any_needs_rebalance (split_pair signal.pair).0 checks then of_ℤ (pos 20) else of_ℤ (pos 60)

  -- The rate of successes among the results of a pair.
  unfoldable pub win_rate : String → List (String × Bool) → D
  win_rate pair window =
      let results = keep (λ r. str_eq r.0 pair) window in
      if ltb (length results) 3
      then of_ℤ (pos 50)
      else mul (quot (of_ℤ (pos (length (keep (λ r. r.1) results)))) (of_ℤ (pos (length results))))
          (of_ℤ (pos 100))

  unfoldable pub score_history : String → SignalScorer D → D
  score_history pair s = win_rate pair (last_n 20 s.recent_results)

  -- `Math.max(0, Math.min(100, x))`
  abbrev pub clamped : D → D
  clamped x =
      let capped = if lt (of_ℤ (pos 100)) x then of_ℤ (pos 100) else x in
      if lt capped (of_ℤ (pos 0)) then of_ℤ (pos 0) else capped

  unfoldable pub score : Signal D → List (CheckResult D) → SignalScorer D → D
  score signal checks s =
      let weighted =
        add
          (add
            (add (mul (score_spread signal.spread_bps s) s.spread_weight)
              (mul (of_ℤ (pos 80)) s.liquidity_weight))
            (mul (score_inventory signal checks) s.inventory_weight))
          (mul (score_history signal.pair s) s.history_weight) in
      quot (of_ℤ (round (mul (clamped weighted) (of_ℤ (pos 10))))) (of_ℤ (pos 10))

  unfoldable pub apply_decay : ℕ → Signal D → Option D → D
  apply_decay now signal given =
      let age_seconds = quot (of_ℤ (pos now -ℤ pos signal.timestamp)) (of_ℤ (pos 1_000)) in
      let ttl_seconds =
        quot (of_ℤ (pos signal.expiry -ℤ pos signal.timestamp)) (of_ℤ (pos 1_000)) in
      let half = quot (of_ℤ (pos 1)) (of_ℤ (pos 2)) in
      let left = sub (of_ℤ (pos 1)) (mul (quot age_seconds ttl_seconds) half) in
      mul (or_else given signal.score) (if lt left (of_ℤ (pos 0)) then of_ℤ (pos 0) else left)
