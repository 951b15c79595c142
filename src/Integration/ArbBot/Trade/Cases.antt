-- ===== src/Integration/ArbBot/Trade/Cases.antt =====
-- arb_bot.service.ts: what a trade depends on, and what the sync after it does.
use internship_project_peanu.Prelude.{
  ◌≡◌, refl, Bool, true, false, not, ◌||◌, Option, none, some, List, String, if◌then◌else◌, ◌↔◌,
  arith,
}
use internship_project_peanu.Prelude.Int.{ℤ, ◌-ℤ◌, ◌≤ℤ◌, ltb_ℤ, leb_ℤ, -ℤ_parts}
use internship_project_peanu.Prelude.Result.{Result, ok, err}
use internship_project_peanu.Prelude.Double.{Double}
use internship_project_peanu.Exchange.OrderBook.{OrderBook}
use internship_project_peanu.Inventory.Tracker.{binance, wallet, get_available}
use internship_project_peanu.Strategy.Signal.{Signal}
use internship_project_peanu.Strategy.Scorer.{SignalScorer}
use internship_project_peanu.Safety.Risk.{RiskManager}
use internship_project_peanu.Safety.Validator.{PreTradeValidator}
use internship_project_peanu.Executor.CircuitBreaker.{is_open}
use internship_project_peanu.Executor.Engine.Context.{Request}
use internship_project_peanu.Integration.ArbBot.{
  Bot, base_mismatch_threshold, quote_mismatch_threshold, distance, balances_match,
  min_profit_buffer,
}
use internship_project_peanu.Integration.ArbBot.Flight.{Flight, TradeAnswers}
use internship_project_peanu.Integration.ArbBot.Trade.{peeked, execute_fresh, execute_real}

abbrev pub Near : ℤ → ℤ → ℤ → Type 0
Near limit a b = (a -ℤ b ≤ℤ limit) × (b -ℤ a ≤ℤ limit)

distance_iff :
    (base_now base quote_now quote : ℤ)
    → (not (
          not (leb_ℤ (distance base_now base) base_mismatch_threshold)
          || not (leb_ℤ (distance quote_now quote) quote_mismatch_threshold))
        ≡ true)
      ↔ (Near base_mismatch_threshold base_now base × Near quote_mismatch_threshold quote_now quote)
distance_iff base_now base quote_now quote = (
  λ h. ground (
    arith,
    -ℤ_parts base_now base,
    -ℤ_parts base base_now,
    -ℤ_parts quote_now quote,
    -ℤ_parts quote quote_now,
  ),
  λ h. ground (
    arith,
    -ℤ_parts base_now base,
    -ℤ_parts base base_now,
    -ℤ_parts quote_now quote,
    -ℤ_parts quote quote_now,
  ),
)

module _ {D : Type 0} where
  -- The balances match exactly when neither is off by more than its threshold, up or down.
  pub balances_match_iff :
      (base quote : String) (expected_base expected_quote : ℤ) (b : Bot D)
      → (balances_match base quote (expected_base, expected_quote) b ≡ true) ↔ (
          Near base_mismatch_threshold (get_available wallet base b.inventory) expected_base
          × Near quote_mismatch_threshold (get_available binance quote b.inventory) expected_quote)
  unfolding balances_match
  balances_match_iff base quote expected_base expected_quote b = distance_iff _ _ _ _

if_same {ℓ κ} :
    {A : Type ℓ} {C : Type κ} (g : A → C) (b : Bool) {x x' y y' : A}
    → g x ≡ g x'
    → g y ≡ g y'
    → g (if b then x else y) ≡ g (if b then x' else y')
if_same g true h k = h
if_same g false h k = k

module _ {D : Type 0} where
  -- The bot with another risk manager, validator and scorer.
  abbrev pub with_checks : RiskManager D → PreTradeValidator D → SignalScorer D → Bot D → Bot D
  with_checks m v c b = record b { risk_manager = m; pre_trade = v; scorer = c }

module _ {D : Type 0} (f : Double D) where
  abbrev Outcome : Type 0
  Outcome = List (Request D) × Bot D × Option (Flight D)

  execute_fresh-with_checks :
      (a : TradeAnswers D) (s fresh : Signal D) (pair : String) (m : RiskManager D)
      (v : PreTradeValidator D) (c : SignalScorer D) (b : Bot D)
      → (execute_fresh f a s fresh pair (with_checks m v c b)).0
        ≡ (execute_fresh f a s fresh pair b).0
  unfolding execute_fresh min_profit_buffer
  execute_fresh-with_checks a s fresh pair m v c b =
      if_same {A = Outcome} (λ x. x.0) (ltb_ℤ fresh.expected_net_pnl (min_profit_buffer s b)) refl
        (if_same {A = Outcome} (λ x. x.0) (is_open a.breaker_check b.executor.circuit_breaker).0
          refl refl)

  peeked-with_checks :
      (a : TradeAnswers D) (s : Signal D) (pair : String) (r : Result (Option (Signal D)))
      (m : RiskManager D) (v : PreTradeValidator D) (c : SignalScorer D) (b : Bot D)
      → (peeked f a s pair r (with_checks m v c b)).0 ≡ (peeked f a s pair r b).0
  peeked-with_checks a s pair (err e) m v c b = refl
  peeked-with_checks a s pair (ok none) m v c b = refl
  peeked-with_checks a s pair (ok (some fresh)) m v c b =
      execute_fresh-with_checks a s fresh pair m v c b

  -- What a trade sends depends on no check: with another risk manager, validator and scorer the
  -- requests are the same.
  pub execute_real-with_checks :
      (a : TradeAnswers D) (s : Signal D) (pair : String) (book : OrderBook) (m : RiskManager D)
      (v : PreTradeValidator D) (c : SignalScorer D) (b : Bot D)
      → (execute_real f a s pair book (with_checks m v c b)).0 ≡ (execute_real f a s pair book b).0
  unfolding execute_real
  execute_real-with_checks a s pair book m v c b = peeked-with_checks a s pair _ m v c _
