-- ===== src/Integration/ArbBot/Events/Errors.antt =====
-- arb_bot.service.ts: which errors the automatic kill switch counts.
use internship_project_peanu.Prelude.{
  ℕ, ◌≡◌, refl, Option, none, some, List, String, if_elim, ◌⊎◌, inl, inr,
}
use internship_project_peanu.Prelude.Int.{ℤ, ltb_ℤ}
use internship_project_peanu.Prelude.Result.{Result, ok, err}
use internship_project_peanu.Prelude.Double.{Double}
use internship_project_peanu.Strategy.Signal.{Signal}
use internship_project_peanu.Safety.KillSwitch.{AutoKillSwitch, record_error}
use internship_project_peanu.Executor.CircuitBreaker.{is_open}
use internship_project_peanu.Executor.Engine.Context.{ExecutionContext, Request, split_pair}
use internship_project_peanu.Executor.Engine.Run.{is_done}
use internship_project_peanu.Integration.ArbBot.{
  Bot, balances_match, sync_balances, min_profit_buffer, stop,
}
use internship_project_peanu.Integration.ArbBot.Flight.{
  Flight, deciding, trading, settling, Answers, TradeAnswers, SettleAnswers, count_trade,
}
use internship_project_peanu.Integration.ArbBot.Decide.{run_dry_run}
use internship_project_peanu.Integration.ArbBot.Decide.Cases.{decide_elim}
use internship_project_peanu.Integration.ArbBot.Trade.{
  executed, peeked, execute_fresh, execute_real, settle, synced, verified, book_execution,
}
use internship_project_peanu.Integration.ArbBot.Events.{advance}

-- As it was, or with one error more.
abbrev pub CountsAtMostOne : ℕ → AutoKillSwitch → AutoKillSwitch → Type 0
CountsAtMostOne now before after = (after ≡ before) ⊎ (after ≡ record_error now before)

module _ {D : Type 0} where
  -- What a part of a tick may count: nothing while it decides, at most one error afterwards.
  abbrev pub Counted : Answers D → Flight D → AutoKillSwitch → AutoKillSwitch → Type 0
  Counted a (deciding pair book) before after = after ≡ before
  Counted a (trading s pair book) before after = CountsAtMostOne a.trade.failure before after
  Counted a (settling pair expected) before after = CountsAtMostOne a.settle.failure before after

  executed-CountsAtMostOne :
      (a : TradeAnswers D) (pair : String) (r : Result (ExecutionContext D)) (b : Bot D)
      → CountsAtMostOne a.failure b.auto_kill (executed a pair r b).0.auto_kill
  unfolding book_execution count_trade
  executed-CountsAtMostOne a pair (err e) b = inr refl
  executed-CountsAtMostOne a pair (ok ctx) b =
      if_elim {A = Bot D × Option (Flight D)}
        (λ x. CountsAtMostOne a.failure b.auto_kill x.0.auto_kill) (is_done ctx.state) _ _
        (λ _. inl refl) (λ _. inl refl)

  verified-auto_kill :
      (pair : String) (expected : Option (ℤ × ℤ)) (b : Bot D)
      → (verified pair expected b).auto_kill ≡ b.auto_kill
  verified-auto_kill pair none b = refl
  verified-auto_kill pair (some expected) b =
      if_elim {A = Bot D} (λ c. c.auto_kill ≡ b.auto_kill)
        (balances_match (split_pair pair).0 (split_pair pair).1 expected b) b (stop b) (λ _. refl)
        (λ _. refl)

  synced-CountsAtMostOne :
      (a : SettleAnswers) (pair : String) (expected : Option (ℤ × ℤ))
      (x : Result (Unit {0}) × Bot D)
      → CountsAtMostOne a.failure x.1.auto_kill (synced a pair expected x).auto_kill
  synced-CountsAtMostOne a pair expected (err e, b) = inr refl
  synced-CountsAtMostOne a pair expected (ok done, b) = inl (verified-auto_kill pair expected b)

module _ {D : Type 0} (f : Double D) where
  peeked-CountsAtMostOne :
      (a : TradeAnswers D) (s : Signal D) (pair : String) (r : Result (Option (Signal D)))
      (b : Bot D)
      → CountsAtMostOne a.failure b.auto_kill (peeked f a s pair r b).1.auto_kill
  unfolding execute_fresh
  peeked-CountsAtMostOne a s pair (err e) b = inr refl
  peeked-CountsAtMostOne a s pair (ok none) b = inl refl
  peeked-CountsAtMostOne a s pair (ok (some fresh)) b =
      let Q : List (Request D) × Bot D × Option (Flight D) → Type 0 =
        λ x. CountsAtMostOne a.failure b.auto_kill x.1.auto_kill in
      if_elim Q (ltb_ℤ fresh.expected_net_pnl (min_profit_buffer s b)) _ _ (λ _. inl refl)
        (λ _.
          if_elim Q (is_open a.breaker_check b.executor.circuit_breaker).0 _ _ (λ _. inl refl)
            (λ _. executed-CountsAtMostOne a pair _ _))

  -- Only errors of a trade are counted: a decision leaves the automatic kill switch as it is, even
  -- where it fails, and the trade and the sync after it each count at most one error.
  pub advance-Counted :
      (a : Answers D) (x : Flight D) (b : Bot D)
      → Counted a x b.auto_kill (advance f a x b).1.auto_kill
  unfolding execute_real settle sync_balances run_dry_run count_trade
  advance-Counted a (deciding pair book) b =
      decide_elim f a.decide pair book (λ x. x.0.auto_kill ≡ b.auto_kill) b
        record {
          quiet = refl;
          unfit = λ s. refl;
          refused = λ s. refl;
          alerted = λ s. refl;
          capped = λ s. refl;
          dry = λ s c sim. refl;
          live = λ s c real. refl;
        }
  advance-Counted a (trading s pair book) b = peeked-CountsAtMostOne a.trade s pair _ _
  advance-Counted a (settling pair expected) b = synced-CountsAtMostOne a.settle pair expected _
