-- ===== src/Integration/ArbBot/Events/Stop.antt =====
-- arb_bot.service.ts: `stop`, the message it waits for, and the end of `run`.
use internship_project_peanu.Prelude.{
  ℕ, ◌≡◌, refl, Bool, true, false, ◌||◌, Option, none, some, List, [], ◌∷◌, ◌==◌, String, get_elem?,
  if_elim, if◌then◌else◌,
}
use internship_project_peanu.Prelude.Int.{ℤ, ltb_ℤ}
use internship_project_peanu.Prelude.Result.{Result, ok, err}
use internship_project_peanu.Prelude.Double.{Double}
use internship_project_peanu.Exchange.OrderBook.{OrderBook}
use internship_project_peanu.Strategy.Signal.{Signal}
use internship_project_peanu.Executor.CircuitBreaker.{is_open}
use internship_project_peanu.Executor.Engine.Context.{ExecutionContext, Request, split_pair}
use internship_project_peanu.Executor.Engine.Run.{is_done}
use internship_project_peanu.Integration.ArbBot.{
  Bot, sync_balances, maybe_daily_reset, min_profit_buffer, balances_match, stop,
}
use internship_project_peanu.Integration.ArbBot.Flight.{
  Flight, deciding, trading, settling, Answers, DecideAnswers, TradeAnswers, SettleAnswers,
  count_trade,
}
use internship_project_peanu.Integration.ArbBot.Gates.Cases.{begin_elim}
use internship_project_peanu.Integration.ArbBot.Decide.{decide, run_dry_run}
use internship_project_peanu.Integration.ArbBot.Decide.Cases.{decide_elim}
use internship_project_peanu.Integration.ArbBot.Trade.{
  execute_real, peeked, execute_fresh, executed, book_execution, settle, synced, verified,
}
use internship_project_peanu.Integration.ArbBot.Events.{
  Event, book_update, tick, resume, sync, daily_check, stop_command, stop_message, panel_sent,
  System, advance, resumed, started, handle, run,
}

-- What `stop`, its message and the end of the start keep, of the four flags.
record Kept (P : Bool → Bool → Bool → Bool → Type 0) : Type 0 where
  stopped : (w x y z : Bool) → P w x y z → P true (if w then x else true) y z
  resolved : (w x y z : Bool) → P w x y z → P w false y (if x then z || y else z)
  started : (w x y z : Bool) → P w x y z → P w x true z

module _ {D : Type 0} (f : Double D) (P : Bool → Bool → Bool → Bool → Type 0) (k : Kept P) where
  abbrev Holds : Bot D → Type 0
  Holds b = P b.stopping b.stop_sending b.waiting b.ended

  stop-Holds : (b : Bot D) → Holds b → Holds (stop b)
  stop-Holds b h = k.stopped b.stopping b.stop_sending b.waiting b.ended h

  decide-Holds :
      (a : DecideAnswers) (pair : String) (book : OrderBook) (b : Bot D)
      → Holds b
      → Holds (decide f a pair book b).0
  unfolding run_dry_run count_trade
  decide-Holds a pair book b h =
      decide_elim f a pair book (λ x. Holds x.0) b
        record {
          quiet = h;
          unfit = λ s. h;
          refused = λ s. h;
          alerted = λ s. h;
          capped = λ s. h;
          dry = λ s c sim. h;
          live = λ s c real. h;
        }

  executed-Holds :
      (a : TradeAnswers D) (pair : String) (r : Result (ExecutionContext D)) (b : Bot D)
      → Holds b
      → Holds (executed a pair r b).0
  unfolding book_execution count_trade
  executed-Holds a pair (err e) b h = h
  executed-Holds a pair (ok ctx) b h =
      if_elim {A = Bot D × Option (Flight D)} (λ x. Holds x.0) (is_done ctx.state) _ _ (λ _. h)
        (λ _. h)

  peeked-Holds :
      (a : TradeAnswers D) (s : Signal D) (pair : String) (r : Result (Option (Signal D)))
      (b : Bot D)
      → Holds b
      → Holds (peeked f a s pair r b).1
  unfolding execute_fresh
  peeked-Holds a s pair (err e) b h = h
  peeked-Holds a s pair (ok none) b h = h
  peeked-Holds a s pair (ok (some fresh)) b h =
      let Q : List (Request D) × Bot D × Option (Flight D) → Type 0 = λ x. Holds x.1 in
      if_elim Q (ltb_ℤ fresh.expected_net_pnl (min_profit_buffer s b)) _ _ (λ _. h)
        (λ _.
          if_elim Q (is_open a.breaker_check b.executor.circuit_breaker).0 _ _ (λ _. h)
            (λ _. executed-Holds a pair _ _ h))

  verified-Holds :
      (pair : String) (expected : Option (ℤ × ℤ)) (b : Bot D)
      → Holds b
      → Holds (verified pair expected b)
  verified-Holds pair none b h = h
  verified-Holds pair (some expected) b h =
      if_elim Holds (balances_match (split_pair pair).0 (split_pair pair).1 expected b) b (stop b)
        (λ _. h) (λ _. stop-Holds b h)

  synced-Holds :
      (a : SettleAnswers) (pair : String) (expected : Option (ℤ × ℤ))
      (x : Result (Unit {0}) × Bot D)
      → Holds x.1
      → Holds (synced a pair expected x)
  synced-Holds a pair expected (err e, b) h = h
  synced-Holds a pair expected (ok done, b) h = verified-Holds pair expected b h

  advance-Holds : (a : Answers D) (x : Flight D) (b : Bot D) → Holds b → Holds (advance f a x b).1
  unfolding execute_real settle sync_balances
  advance-Holds a (deciding pair book) b h = decide-Holds a.decide pair book b h
  advance-Holds a (trading s pair book) b h = peeked-Holds a.trade s pair _ _ h
  advance-Holds a (settling pair expected) b h = synced-Holds a.settle pair expected _ h

  resumed-Holds :
      (i : ℕ) (a : Answers D) (o : Option (Flight D)) (s : System D)
      → Holds s.bot
      → Holds (resumed f i a o s).bot
  resumed-Holds i a none s h = h
  resumed-Holds i a (some x) s h = advance-Holds a x s.bot h

  handle-Holds : (e : Event D) (s : System D) → Holds s.bot → Holds (handle f e s).bot
  unfolding handle sync_balances maybe_daily_reset
  handle-Holds (book_update pair book) s h = h
  handle-Holds (tick pair book a) s h =
      begin_elim f a s.bot (λ x. Holds (started f (deciding pair book) x s).bot)
        (stop-Holds s.bot h) (stop-Holds s.bot h) h (λ quiet calm free. h)
  handle-Holds (resume i a) s h = resumed-Holds i a (get_elem? s.flights i) s h
  handle-Holds (sync a) s h = h
  handle-Holds (daily_check now today) s h =
      if_elim {A = Bot D} Holds (today == s.bot.last_reset_day) _ _ (λ _. h) (λ _. h)
  handle-Holds stop_command s h = stop-Holds s.bot h
  handle-Holds stop_message s h =
      k.resolved s.bot.stopping s.bot.stop_sending s.bot.waiting s.bot.ended h
  handle-Holds panel_sent s h =
      k.started s.bot.stopping s.bot.stop_sending s.bot.waiting s.bot.ended h

  run-Holds : (es : List (Event D)) (s : System D) → Holds s.bot → Holds (run f es s).bot
  unfolding run
  run-Holds [] s h = h
  run-Holds (e ∷ es) s h = run-Holds es (handle f e s) (handle-Holds e s h)

-- A stop that was missed: it is over and the bot runs.
abbrev Missed : Bool → Bool → Bool → Bool → Type 0
Missed stopping sending waiting ended = (stopping ≡ true) × (sending ≡ false) × (ended ≡ false)

Missed-Kept : Kept Missed
Missed-Kept = record {
  stopped = λ w x y z h. (refl, rw h.0 h.1, h.2);
  resolved = λ w x y z h. (h.0, refl, rw h.1 h.2);
  started = λ w x y z h. h;
}

-- A stop that is seen: `run` waits, and has ended or will by the message.
abbrev Seen : Bool → Bool → Bool → Bool → Type 0
Seen stopping sending waiting ended =
    (stopping ≡ true) × (waiting ≡ true) × ((sending || ended) ≡ true)

ended_by_message :
    (sending waiting ended : Bool)
    → waiting ≡ true
    → (sending || ended) ≡ true
    → (if sending then ended || waiting else ended) ≡ true
ended_by_message true waiting true w h = refl
ended_by_message false waiting true w h = refl
ended_by_message true waiting false w h = w
ended_by_message false waiting false w h = h

Seen-Kept : Kept Seen
Seen-Kept = record {
  stopped = λ w x y z h. (refl, h.1, rw h.0 h.2);
  resolved = λ w x y z h. (h.0, h.1, ended_by_message x y z h.1 h.2);
  started = λ w x y z h. (h.0, refl, h.2);
}

module _ {D : Type 0} (f : Double D) where
  -- A stop whose message is sent while `run` does not wait yet is missed: whatever comes after it,
  -- further stops included, `run` does not end.
  pub run-missed_stop :
      (es : List (Event D)) (s : System D)
      → s.bot.waiting ≡ false
      → s.bot.stopping ≡ false
      → s.bot.ended ≡ false
      → (run f (stop_command ∷ stop_message ∷ es) s).bot.ended ≡ false
  unfolding run handle
  run-missed_stop es s waiting stopping running =
      (run-Holds f Missed Missed-Kept es _ (refl, refl, rw (stopping, waiting, running) refl)).2

  -- While `run` waits, a stop ends it once its message is sent, whatever comes in between.
  pub run-stop :
      (es : List (Event D)) (s : System D)
      → s.bot.waiting ≡ true
      → s.bot.stopping ≡ false
      → (handle f stop_message (run f (stop_command ∷ es) s)).bot.ended ≡ true
  unfolding run handle
  run-stop es s waiting stopping =
      let start : System D = record s { bot = stop s.bot } in
      let final : Bot D = (run f es start).bot in
      let h = run-Holds f Seen Seen-Kept es start (refl, waiting, rw stopping refl) in
      ended_by_message final.stop_sending final.waiting final.ended h.1 h.2
