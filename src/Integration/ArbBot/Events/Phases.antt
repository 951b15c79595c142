-- ===== src/Integration/ArbBot/Events/Phases.antt =====
-- arb_bot.service.ts: the phases of the bot as an abstract machine, which the handlers implement.
use internship_project_peanu.Prelude.{
  ℕ, zero, suc, ◌≡◌, refl, sym, ap, ◌∙◌, Option, none, some, List, [], ◌∷◌, ◌++◌, String, get_elem?,
  if_elim,
}
use mathlib.Core.List.{append-nil, append_assoc}
use internship_project_peanu.Prelude.Int.{ltb_ℤ}
use internship_project_peanu.Prelude.Result.{Result, ok, err}
use internship_project_peanu.Prelude.Double.{Double}
use internship_project_peanu.Exchange.OrderBook.{OrderBook}
use internship_project_peanu.Strategy.Signal.{Signal}
use internship_project_peanu.Executor.CircuitBreaker.{is_open}
use internship_project_peanu.Executor.Engine.Context.{ExecutionContext, Request}
use internship_project_peanu.Executor.Engine.Run.{is_done}
use internship_project_peanu.Integration.ArbBot.{Bot, min_profit_buffer, stop}
use internship_project_peanu.Integration.ArbBot.Flight.{
  Flight, deciding, trading, settling, GateAnswers, Answers, TradeAnswers,
}
use internship_project_peanu.Integration.ArbBot.Gates.{begin_tick, file_checked, kill_checked}
use internship_project_peanu.Integration.ArbBot.Gates.Cases.{begin_elim}
use internship_project_peanu.Integration.ArbBot.Decide.{decide}
use internship_project_peanu.Integration.ArbBot.Decide.Cases.{decide_elim}
use internship_project_peanu.Integration.ArbBot.Trade.{
  execute_real, peeked, execute_fresh, executed, book_execution,
}
use internship_project_peanu.Integration.ArbBot.Events.{
  Event, book_update, tick, resume, sync, daily_check, stop_command, stop_message, panel_sent,
  System, put_back, advance, resumed, started, handle, run,
}
use internship_project_peanu.Integration.ArbBot.Events.Single.{
  Matches, none_in_flight, handle-Matches,
}

pub data Phase : Type 0 where
  resting choosing committed checking : Phase

-- The abstract machine, with the requests of each step: only a committed tick sends any.
pub data Step {D : Type 0} : Phase → List (Request D) → Phase → Type 0 where
  stays : {p : Phase} → Step p [] p
  begins : Step resting [] choosing
  drops : Step choosing [] resting
  commits : Step choosing [] committed
  gives_up : {requests : List (Request D)} → Step committed requests resting
  executes : {requests : List (Request D)} → Step committed requests checking
  settles : Step checking [] resting

pub data Steps {D : Type 0} : Phase → List (Request D) → Phase → Type 0 where
  done : {p : Phase} → Steps p [] p
  next :
      {p q r : Phase} {first later : List (Request D)}
      → Step p first q
      → Steps q later r
      → Steps p (first ++ later) r

module _ {D : Type 0} where
  abbrev pub phase_in : Flight D → Phase
  phase_in (deciding pair book) = choosing
  phase_in (trading s pair book) = committed
  phase_in (settling pair expected) = checking

  -- The phase of the first tick that waits.
  abbrev pub phase_of : List (Flight D) → Phase
  phase_of [] = resting
  phase_of (x ∷ xs) = phase_in x

  abbrev phase_next : Option (Flight D) → Phase
  phase_next none = resting
  phase_next (some x) = phase_in x

  executed-Step :
      (a : TradeAnswers D) (pair : String) (r : Result (ExecutionContext D)) (b : Bot D)
      (requests : List (Request D))
      → Step committed requests (phase_next (executed a pair r b).1)
  unfolding book_execution
  executed-Step a pair (err e) b requests = gives_up
  executed-Step a pair (ok ctx) b requests =
      if_elim {A = Bot D × Option (Flight D)} (λ x. Step committed requests (phase_next x.1))
        (is_done ctx.state) _ _ (λ _. executes) (λ _. executes)

module _ {D : Type 0} (f : Double D) where
  decide-Step :
      (a : Answers D) (pair : String) (book : OrderBook) (b : Bot D)
      → Step {D = D} choosing [] (phase_next (decide f a.decide pair book b).1)
  decide-Step a pair book b =
      decide_elim f a.decide pair book (λ x. Step {D = D} choosing [] (phase_next x.1)) b
        record {
          quiet = drops;
          unfit = λ s. drops;
          refused = λ s. drops;
          alerted = λ s. drops;
          capped = λ s. drops;
          dry = λ s c sim. drops;
          live = λ s c real. commits;
        }

  peeked-Step :
      (a : TradeAnswers D) (s : Signal D) (pair : String) (r : Result (Option (Signal D)))
      (b : Bot D)
      → let x = peeked f a s pair r b in Step committed x.0 (phase_next x.2)
  unfolding execute_fresh
  peeked-Step a s pair (err e) b = gives_up
  peeked-Step a s pair (ok none) b = gives_up
  peeked-Step a s pair (ok (some fresh)) b =
      let Q : List (Request D) × Bot D × Option (Flight D) → Type 0 =
        λ x. Step committed x.0 (phase_next x.2) in
      if_elim Q (ltb_ℤ fresh.expected_net_pnl (min_profit_buffer s b)) _ _ (λ _. gives_up)
        (λ _.
          if_elim Q (is_open a.breaker_check b.executor.circuit_breaker).0 _ _ (λ _. gives_up)
            (λ _. executed-Step a pair _ _ _))

  advance-Step :
      (a : Answers D) (x : Flight D) (b : Bot D)
      → let y = advance f a x b in Step (phase_in x) y.0 (phase_next y.2)
  unfolding execute_real
  advance-Step a (deciding pair book) b = decide-Step a pair book b
  advance-Step a (trading s pair book) b = peeked-Step a.trade s pair _ _
  advance-Step a (settling pair expected) b = settles

  -- A handler's requests, and the step it makes with them.
  abbrev Makes : System D → System D → Type 0
  Makes s s' =
      (requests : List (Request D)) × Step (phase_of s.flights) requests (phase_of s'.flights)
      × (s'.sent ≡ s.sent ++ requests)

  put_back-Step :
      {p : Phase} {requests : List (Request D)} (o : Option (Flight D)) (x : Flight D)
      → Step p requests (phase_next o)
      → Step p requests (phase_of (put_back 0 o (x ∷ [])))
  put_back-Step none x h = h
  put_back-Step (some y) x h = h

  still : (s : System D) (b : Bot D) → Makes s (record s { bot = b })
  still s b = ([], stays, sym (append-nil s.sent))

  resumed-Makes :
      (i : ℕ) (a : Answers D) (b : Bot D) (xs : List (Flight D)) (sent : List (Request D))
      → Matches xs b.tick_state
      → let s : System D = record { bot = b; flights = xs; sent = sent } in
        Makes s (resumed f i a (get_elem? xs i) s)
  resumed-Makes i a b [] sent h = still (record { bot = b; flights = []; sent = sent }) b
  resumed-Makes zero a b (x ∷ []) sent h = (_, put_back-Step _ x (advance-Step a x b), refl)
  resumed-Makes (suc i) a b (x ∷ []) sent h =
      still (record { bot = b; flights = x ∷ []; sent = sent }) b
  resumed-Makes i a b (x ∷ y ∷ rest) sent h = absurd h

  started-Makes :
      (pair : String) (book : OrderBook) (a : GateAnswers) (s : System D)
      → Matches s.flights s.bot.tick_state
      → Makes s (started f (deciding pair book) (begin_tick f a s.bot) s)
  started-Makes pair book a s h =
      begin_elim f a s.bot (λ x. Makes s (started f (deciding pair book) x s))
        (still s (stop (file_checked a s.bot))) (still s (stop (kill_checked f a s.bot)))
        (still s (kill_checked f a s.bot))
        (λ quiet calm free.
          let none_waits : s.flights ≡ [] = none_in_flight s.flights (rw free at h) in
          ([], rw (none_waits, ◌++◌) begins, sym (append-nil s.sent)))

  handle-Makes :
      (e : Event D) (s : System D) → Matches s.flights s.bot.tick_state → Makes s (handle f e s)
  unfolding handle
  handle-Makes (book_update pair book) s h = still s (handle f (book_update pair book) s).bot
  handle-Makes (tick pair book a) s h = started-Makes pair book a s h
  handle-Makes (resume i a) s h = resumed-Makes i a s.bot s.flights s.sent h
  handle-Makes (sync a) s h = still s (handle f (sync a) s).bot
  handle-Makes (daily_check now today) s h = still s (handle f (daily_check now today) s).bot
  handle-Makes stop_command s h = still s (handle f stop_command s).bot
  handle-Makes stop_message s h = still s (handle f stop_message s).bot
  handle-Makes panel_sent s h = still s (handle f panel_sent s).bot

  -- The handlers implement the abstract machine: from a state that matches the ticks in flight, any
  -- events in any order take the bot along steps of the machine, and what it sends meanwhile is
  -- what those steps send, in their order. So it sends only while a tick that was decided on is
  -- traded.
  pub run-Steps :
      (es : List (Event D)) (s : System D)
      → Matches s.flights s.bot.tick_state
      → (requests : List (Request D)) × Steps
          (phase_of s.flights)
          requests
          (phase_of (run f es s).flights)
        × ((run f es s).sent ≡ s.sent ++ requests)
  unfolding run
  run-Steps [] s h = ([], done, sym (append-nil s.sent))
  run-Steps (e ∷ es) s h =
      let (first, step, sent) = handle-Makes e s h in
      let (later, steps, all) = run-Steps es (handle f e s) (handle-Matches f e s h) in
      (
        first ++ later,
        next step steps,
        all ∙ ap (λ xs. xs ++ later) sent ∙ append_assoc s.sent first later,
      )
