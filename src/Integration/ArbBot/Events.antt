-- ===== src/Integration/ArbBot/Events.antt =====
-- arb_bot.service.ts: the handlers that `run` registers, as events that come in any order, and the
-- ticks that wait in between.
pub mod Single
pub mod DryRun
pub mod Stop
pub mod Phases
pub mod Errors
use internship_project_peanu.Prelude.{
  ℕ, zero, suc, Bool, true, false, Option, none, some, List, [], ◌∷◌, ◌++◌, String, get_elem?,
  if◌then◌else◌,
}
use internship_project_peanu.Prelude.Double.{Double}
use internship_project_peanu.Prelude.Dict
use internship_project_peanu.Exchange.OrderBook.{OrderBook}
use internship_project_peanu.Executor.Engine.Context.{Request}
use internship_project_peanu.Integration.ArbBot.{
  Bot, SyncAnswers, stop, sync_balances, maybe_daily_reset, stop_sent, wait_for_stop,
}
use internship_project_peanu.Integration.ArbBot.Flight.{
  Flight, deciding, trading, settling, GateAnswers, Answers,
}
use internship_project_peanu.Integration.ArbBot.Gates.{begin_tick}
use internship_project_peanu.Integration.ArbBot.Decide.{decide}
use internship_project_peanu.Integration.ArbBot.Trade.{execute_real, settle}

pub data Event (D : Type 0) : Type 0 where
  -- a depth message, and the tick that its timer starts
  book_update : String → OrderBook → Event D
  tick : String → OrderBook → GateAnswers → Event D
  -- the tick at a place in the pool is answered
  resume : ℕ → Answers D → Event D
  -- the two timers, with the clock and the day of the month
  sync : SyncAnswers → Event D
  daily_check : ℕ → ℕ → Event D
  -- the command, or the button
  stop_command : Event D
  -- the message of a stop was sent; `run` has sent the panel and waits for its end
  stop_message : Event D
  panel_sent : Event D

-- The bot, the ticks that wait, and all that was sent to the venues.
pub record System (D : Type 0) : Type 0 where
  pub bot : Bot D
  pub flights : List (Flight D)
  pub sent : List (Request D)

module _ {D : Type 0} where
  -- The pool with what a tick waits for next, or without the tick.
  abbrev pub put_back : ℕ → Option (Flight D) → List (Flight D) → List (Flight D)
  put_back i next [] = []
  put_back zero none (x ∷ xs) = xs
  put_back zero (some y) (x ∷ xs) = y ∷ xs
  put_back (suc i) next (x ∷ xs) = x ∷ put_back i next xs

module _ {D : Type 0} (f : Double D) where
  -- A tick that waits is answered: the requests it sends, and what it waits for next.
  abbrev pub advance : Answers D → Flight D → Bot D → List (Request D) × Bot D × Option (Flight D)
  advance a (deciding pair book) b =
      let (b', next) = decide f a.decide pair book b in ([], b', next)
  advance a (trading s pair book) b = execute_real f a.trade s pair book b
  advance a (settling pair expected) b = ([], settle a.settle pair expected b, none)

  abbrev pub resumed : ℕ → Answers D → Option (Flight D) → System D → System D
  resumed i a none s = s
  resumed i a (some flight) s =
      let (requests, b, next) = advance a flight s.bot in
      record { bot = b; flights = put_back i next s.flights; sent = s.sent ++ requests }

  abbrev pub started : Flight D → Bool × Bot D → System D → System D
  started flight (true, b) s = record s { bot = b; flights = s.flights ++ flight ∷ [] }
  started flight (false, b) s = record s { bot = b }

  unfoldable pub handle : Event D → System D → System D
  handle (book_update pair book) s = record s {
    bot = record s.bot { latest_books = Dict.put pair book s.bot.latest_books };
  }
  handle (tick pair book a) s = started (deciding pair book) (begin_tick f a s.bot) s
  handle (resume i a) s = resumed i a (get_elem? s.flights i) s
  handle (sync a) s = record s { bot = (sync_balances a s.bot).1 }
  handle (daily_check now today) s = record s { bot = maybe_daily_reset now today s.bot }
  handle stop_command s = record s { bot = stop s.bot }
  handle stop_message s = record s { bot = stop_sent s.bot }
  handle panel_sent s = record s { bot = wait_for_stop s.bot }

  unfoldable pub run : List (Event D) → System D → System D
  run [] s = s
  run (e ∷ es) s = run es (handle e s)
