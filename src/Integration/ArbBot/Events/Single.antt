-- ===== src/Integration/ArbBot/Events/Single.antt =====
-- arb_bot.service.ts: at most one tick is in flight, whatever the order of the events.
use internship_project_peanu.Prelude.{
  ℕ, zero, suc, ◌≡◌, refl, Option, none, some, List, [], ◌∷◌, ◌++◌, ◌==◌, String, get_elem?,
  if_elim,
}
use internship_project_peanu.Prelude.Int.{ℤ, ltb_ℤ}
use internship_project_peanu.Prelude.Result.{Result, ok, err}
use internship_project_peanu.Prelude.Double.{Double}
use internship_project_peanu.Exchange.OrderBook.{OrderBook}
use internship_project_peanu.Strategy.Signal.{Signal}
use internship_project_peanu.Executor.CircuitBreaker.{is_open}
use internship_project_peanu.Executor.Engine.Context.{ExecutionContext, Request}
use internship_project_peanu.Executor.Engine.Run.{is_done}
use internship_project_peanu.Integration.ArbBot.{
  Bot, BotState, idle, generating, executing, sync_balances, maybe_daily_reset, min_profit_buffer,
}
use internship_project_peanu.Integration.ArbBot.Flight.{
  Flight, deciding, trading, settling, GateAnswers, DecideAnswers, TradeAnswers, SettleAnswers,
  Answers, count_trade,
}
use internship_project_peanu.Integration.ArbBot.Gates.{begin_tick}
use internship_project_peanu.Integration.ArbBot.Gates.Cases.{begin_elim}
use internship_project_peanu.Integration.ArbBot.Decide.{decide}
use internship_project_peanu.Integration.ArbBot.Decide.Cases.{decide_elim}
use internship_project_peanu.Integration.ArbBot.Trade.{
  execute_real, peeked, execute_fresh, executed, book_execution, settle, synced,
}
use internship_project_peanu.Integration.ArbBot.Events.{
  Event, book_update, tick, resume, sync, daily_check, stop_command, stop_message, panel_sent,
  System, put_back, advance, resumed, started, handle, run,
}

module _ {D : Type 0} where
  abbrev pub state_of : Flight D → BotState
  state_of (deciding pair book) = generating
  state_of (trading s pair book) = executing
  state_of (settling pair expected) = executing

  -- No tick waits and the state is idle, or one waits and the state is that tick's.
  abbrev pub Matches : List (Flight D) → BotState → Type 0
  Matches [] state = state ≡ idle
  Matches (x ∷ []) state = state ≡ state_of x
  Matches (x ∷ y ∷ rest) state = ⊥

  abbrev pub Ready : Option (Flight D) → BotState → Type 0
  Ready none state = state ≡ idle
  Ready (some x) state = state ≡ state_of x

  pub none_in_flight : (xs : List (Flight D)) → Matches xs idle → xs ≡ []
  none_in_flight [] h = refl
  none_in_flight (deciding pair book ∷ []) h = cc
  none_in_flight (trading s pair book ∷ []) h = cc
  none_in_flight (settling pair expected ∷ []) h = cc
  none_in_flight (x ∷ y ∷ rest) h = absurd h

  synced-idle :
      (a : SettleAnswers) (pair : String) (expected : Option (ℤ × ℤ))
      (x : Result (Unit {0}) × Bot D)
      → (synced a pair expected x).tick_state ≡ idle
  synced-idle a pair expected (err e, b) = refl
  synced-idle a pair expected (ok done, b) = refl

  executed-Ready :
      (a : TradeAnswers D) (pair : String) (r : Result (ExecutionContext D)) (b : Bot D)
      → b.tick_state ≡ executing
      → Ready (executed a pair r b).1 (executed a pair r b).0.tick_state
  unfolding book_execution count_trade
  executed-Ready a pair (err e) b h = refl
  executed-Ready a pair (ok ctx) b h =
      if_elim {A = Bot D × Option (Flight D)} (λ x. Ready x.1 x.0.tick_state) (is_done ctx.state) _
        _ (λ _. h) (λ _. h)

module _ {D : Type 0} (f : Double D) where
  -- The state of a decision's outcome is the one that it waits in.
  decide-Ready :
      (a : DecideAnswers) (pair : String) (book : OrderBook) (b : Bot D)
      → Ready (decide f a pair book b).1 (decide f a pair book b).0.tick_state
  decide-Ready a pair book b =
      decide_elim f a pair book (λ x. Ready x.1 x.0.tick_state) b
        record {
          quiet = refl;
          unfit = λ s. refl;
          refused = λ s. refl;
          alerted = λ s. refl;
          capped = λ s. refl;
          dry = λ s c h. refl;
          live = λ s c h. refl;
        }

  execute_fresh-Ready :
      (a : TradeAnswers D) (s fresh : Signal D) (pair : String) (b : Bot D)
      → b.tick_state ≡ executing
      → Ready (execute_fresh f a s fresh pair b).2 (execute_fresh f a s fresh pair b).1.tick_state
  unfolding execute_fresh
  execute_fresh-Ready a s fresh pair b h =
      let Q : List (Request D) × Bot D × Option (Flight D) → Type 0 =
        λ x. Ready x.2 x.1.tick_state in
      if_elim Q (ltb_ℤ fresh.expected_net_pnl (min_profit_buffer s b)) _ _ (λ _. refl)
        (λ _.
          if_elim Q (is_open a.breaker_check b.executor.circuit_breaker).0 _ _ (λ _. refl)
            (λ _. executed-Ready a pair _ _ h))

  peeked-Ready :
      (a : TradeAnswers D) (s : Signal D) (pair : String) (r : Result (Option (Signal D)))
      (b : Bot D)
      → b.tick_state ≡ executing
      → Ready (peeked f a s pair r b).2 (peeked f a s pair r b).1.tick_state
  peeked-Ready a s pair (err e) b h = refl
  peeked-Ready a s pair (ok none) b h = refl
  peeked-Ready a s pair (ok (some fresh)) b h = execute_fresh-Ready a s fresh pair b h

  advance-Ready :
      (a : Answers D) (x : Flight D) (b : Bot D)
      → b.tick_state ≡ state_of x
      → Ready (advance f a x b).2 (advance f a x b).1.tick_state
  unfolding execute_real settle
  advance-Ready a (deciding pair book) b h = decide-Ready a.decide pair book b
  advance-Ready a (trading s pair book) b h = peeked-Ready a.trade s pair _ _ h
  advance-Ready a (settling pair expected) b h = synced-idle a.settle pair expected _

  put_back-Matches :
      (o : Option (Flight D)) (x : Flight D) (state : BotState)
      → Ready o state
      → Matches (put_back 0 o (x ∷ [])) state
  put_back-Matches none x state h = h
  put_back-Matches (some y) x state h = h

  resumed-Matches :
      (i : ℕ) (a : Answers D) (b : Bot D) (xs : List (Flight D)) (sent : List (Request D))
      → Matches xs b.tick_state
      → let s = resumed f i a (get_elem? xs i) (record { bot = b; flights = xs; sent = sent }) in
        Matches s.flights s.bot.tick_state
  resumed-Matches i a b [] sent h = h
  resumed-Matches zero a b (x ∷ []) sent h = put_back-Matches _ x _ (advance-Ready a x b h)
  resumed-Matches (suc i) a b (x ∷ []) sent h = h
  resumed-Matches i a b (x ∷ y ∷ rest) sent h = absurd h

  started-Matches :
      (pair : String) (book : OrderBook) (a : GateAnswers) (s : System D)
      → Matches s.flights s.bot.tick_state
      → let s' = started f (deciding pair book) (begin_tick f a s.bot) s in
        Matches s'.flights s'.bot.tick_state
  started-Matches pair book a s h =
      begin_elim f a s.bot
        (λ x. let s' = started f (deciding pair book) x s in Matches s'.flights s'.bot.tick_state) h
        h h
        (λ quiet calm free.
          let none_waits : s.flights ≡ [] = none_in_flight s.flights (rw free at h) in
          rw (none_waits, ◌++◌) refl)

  pub handle-Matches :
      (e : Event D) (s : System D)
      → Matches s.flights s.bot.tick_state
      → Matches (handle f e s).flights (handle f e s).bot.tick_state
  unfolding handle sync_balances maybe_daily_reset
  handle-Matches (book_update pair book) s h = h
  handle-Matches (tick pair book a) s h = started-Matches pair book a s h
  handle-Matches (resume i a) s h = resumed-Matches i a s.bot s.flights s.sent h
  handle-Matches (sync a) s h = h
  handle-Matches (daily_check now today) s h =
      if_elim {A = Bot D} (λ b. Matches s.flights b.tick_state) (today == s.bot.last_reset_day) _ _
        (λ _. h) (λ _. h)
  handle-Matches stop_command s h = h
  handle-Matches stop_message s h = h
  handle-Matches panel_sent s h = h

  -- One tick at a time: if the state matches the ticks in flight, then it does after any events in
  -- any order: no tick waits and the bot is idle, or one tick waits and the state says for what.
  pub run-Matches :
      (es : List (Event D)) (s : System D)
      → Matches s.flights s.bot.tick_state
      → Matches (run f es s).flights (run f es s).bot.tick_state
  unfolding run
  run-Matches [] s h = h
  run-Matches (e ∷ es) s h = run-Matches es (handle f e s) (handle-Matches e s h)
