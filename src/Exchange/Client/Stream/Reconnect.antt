-- ===== src/Exchange/Client/Stream/Reconnect.antt =====
-- exchange.client.ts: when the stream opens sockets again.
use internship_project_peanu.Prelude.{
  ℕ, zero, suc, ◌+◌, ◌-◌, ◌≡◌, refl, true, false, ◌&&◌, Option, none, some, List, [], ◌∷◌,
  get_elem?, String, ltb, leb, if◌then◌else◌, All, Bool-cases, inl, inr, arith,
}
use internship_project_peanu.Exchange.OrderBook.{Level}
use internship_project_peanu.Exchange.Client.Stream.{
  Channel, Stream, subscribe, open_socket, connect_ws, disconnect_ws, on_open, on_close, on_timer,
  schedule_reconnect, fired, on_depth, is_empty, max_reconnect_attempts,
}

pub data Event : Type 0 where
  subscribed : Channel → String → Event
  connected disconnected opened closed : Event
  timer : ℕ → Event
  message : String → List Level → List Level → Event

abbrev pub step : Event → Stream → Stream
step (subscribed c pair) s = subscribe c pair s
step connected s = connect_ws s
step disconnected s = disconnect_ws s
step opened s = on_open s
step closed s = on_close s
step (timer i) s = on_timer i s
step (message pair bids asks) s = on_depth pair bids asks s

abbrev pub run : List Event → Stream → Stream
run [] s = s
run (e ∷ es) s = run es (step e s)

abbrev pub NoConnect : Event → Type 0
NoConnect connected = ⊥
NoConnect e = Unit

-- Stopped, with the same sockets made.
pub record IsQuiet (s t : Stream) : Type 0 where
  pub stopped : t.stopped ≡ true
  pub sockets : t.sockets ≡ s.sockets

fired-IsQuiet : (o : Option ℕ) (i : ℕ) (s t : Stream) → IsQuiet s t → IsQuiet s (fired o i t)
fired-IsQuiet none i s t h = h
fired-IsQuiet (some delay) i s t h = rw h.stopped (record { stopped = refl; sockets = h.sockets })

step-IsQuiet : (e : Event) (s t : Stream) → NoConnect e → IsQuiet s t → IsQuiet s (step e t)
unfolding disconnect_ws on_open on_close on_timer on_depth
step-IsQuiet (subscribed Channel.depth pair) s t stays h = record {
  stopped = h.stopped;
  sockets = h.sockets;
}
step-IsQuiet (subscribed Channel.trade pair) s t stays h = record {
  stopped = h.stopped;
  sockets = h.sockets;
}
step-IsQuiet (subscribed Channel.ticker pair) s t stays h = record {
  stopped = h.stopped;
  sockets = h.sockets;
}
step-IsQuiet connected s t stays h = elim stays [ ]
step-IsQuiet disconnected s t stays h = record { stopped = refl; sockets = h.sockets }
step-IsQuiet opened s t stays h = record { stopped = h.stopped; sockets = h.sockets }
step-IsQuiet closed s t stays h = rw h.stopped (record { stopped = refl; sockets = h.sockets })
step-IsQuiet (timer i) s t stays h = fired-IsQuiet (get_elem? t.timers i) i s t h
step-IsQuiet (message pair bids asks) s t stays h = record {
  stopped = h.stopped;
  sockets = h.sockets;
}

run-IsQuiet :
    (es : List Event) (s t : Stream) → All NoConnect es → IsQuiet s t → IsQuiet s (run es t)
run-IsQuiet [] s t stays h = h
run-IsQuiet (e ∷ es) s t stays h =
    run-IsQuiet es s (step e t) stays.1 (step-IsQuiet e s t stays.0 h)

-- After the stream is closed by the program no socket is made until it is connected again, whatever
-- sockets close, timers fire or messages come in between.
pub disconnect_ws-IsQuiet :
    (es : List Event) (s : Stream) → All NoConnect es → IsQuiet s (run es (disconnect_ws s))
unfolding disconnect_ws
disconnect_ws-IsQuiet es s stays =
    run-IsQuiet es s (disconnect_ws s) stays (record { stopped = refl; sockets = refl })

-- A server that takes the connection down again and again: each socket closes before it opens, and
-- the timer that the close has set fires.
abbrev pub flaps : ℕ → List Event
flaps zero = []
flaps (suc k) = closed ∷ timer 0 ∷ flaps k

-- Not stopped, with a subscription, and with no reconnection that waits.
pub record IsLive (s : Stream) : Type 0 where
  pub running : s.stopped ≡ false
  pub subscribed :
      (is_empty s.depth_pairs && is_empty s.trade_pairs && is_empty s.ticker_pairs) ≡ false
  pub idle : s.timers ≡ []

abbrev flapped : Stream → Stream
flapped s = on_timer 0 (on_close s)

-- What a flap does: one socket and one attempt more, or nothing after the last attempt.
record IsFlapped (s : Stream) (more : ℕ) (t : Stream) : Type 0 where
  live : IsLive t
  sockets : t.sockets ≡ s.sockets + more
  attempts : t.reconnect_attempts ≡ s.reconnect_attempts + more

flapped_again :
    (s : Stream)
    → IsLive s
    → leb max_reconnect_attempts s.reconnect_attempts ≡ false
    → IsFlapped s 1 (flapped s)
unfolding on_timer on_close schedule_reconnect open_socket
flapped_again s h again =
    rw (h.running, again, h.idle, h.subscribed)
      (record {
        live = record { running = refl; subscribed = h.subscribed; idle = refl };
        sockets = omega arith;
        attempts = omega arith;
      })

flapped_out :
    (s : Stream)
    → IsLive s
    → leb max_reconnect_attempts s.reconnect_attempts ≡ true
    → IsFlapped s 0 (flapped s)
unfolding on_timer on_close schedule_reconnect
flapped_out s h full =
    rw (h.running, full, h.idle)
      (record {
        live = record { running = refl; subscribed = h.subscribed; idle = refl };
        sockets = omega arith;
        attempts = omega arith;
      })

abbrev pub at_most : ℕ → ℕ → ℕ
at_most a b = if ltb a b then a else b

-- While no socket opens, each close is followed by a new socket until the attempts are used up, and
-- by none afterwards.
pub flaps-sockets :
    (k : ℕ) (s : Stream)
    → IsLive s
    → (run (flaps k) s).sockets
      ≡ s.sockets + at_most k (max_reconnect_attempts - s.reconnect_attempts)
flaps-sockets zero s h = ground arith
flaps-sockets (suc k) s h = elim (Bool-cases (leb max_reconnect_attempts s.reconnect_attempts)) [
  | inl full ↦
      let f = flapped_out s h full in
      let later = flaps-sockets k (flapped s) f.live in
      ground (arith, later, full, f.sockets, f.attempts)
  | inr again ↦
      let f = flapped_again s h again in
      let later = flaps-sockets k (flapped s) f.live in
      ground (arith, later, again, f.sockets, f.attempts)
]
