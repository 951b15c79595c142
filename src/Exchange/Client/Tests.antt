-- ===== src/Exchange/Client/Tests.antt =====
-- The theorems on the client of the exchange, at small inputs.
use internship_project_peanu.Prelude.{
  ℕ, ◌+◌, ◌-◌, ◌<◌, ◌≡◌, refl, true, false, List, [], ◌∷◌, arith,
}
use internship_project_peanu.Exchange.Client.{
  RateLimitConfig, Reply, answered, thrown, network_error, prune, sleep_ms, check_weight,
  record_weight, weighted,
}
use internship_project_peanu.Exchange.Client.Weights.{windowed}
use internship_project_peanu.Exchange.Client.Limit.{Call, sent, InTurn, sent_below_limit}
use internship_project_peanu.Exchange.Client.Stream.{Stream, disconnect_ws}
use internship_project_peanu.Exchange.Client.Stream.Reconnect.{
  closed, timer, message, IsQuiet, run, flaps, at_most, disconnect_ws-IsQuiet, flaps-sockets,
}

abbrev limits : RateLimitConfig
limits = record {
  weight_limit = 3;
  window_ms = 1_000;
  weights = record {
    order_book = 1;
    balance = 1;
    create_order = 1;
    cancel_order = 1;
    fetch_order = 1;
    trading_fees = 1;
  };
}

abbrev call_at : ℕ → ℕ → Reply (Unit {0}) → Call
call_at now woke reply = record {
  weight = 1;
  times = record { checked = now; read = now; woke = woke; answered_at = woke + 10 };
  reply = reply;
}

-- The third call sleeps until the first has left the window; the last one fails.
abbrev calls : List Call
calls =
    call_at 100 100 (answered tt)
    ∷ call_at 200 200 (answered tt)
    ∷ call_at 300 1_160 (answered tt)
    ∷ call_at 1_200 1_260 (thrown network_error)
    ∷ []

in_turn : InTurn 0 calls (record { rate_limit = limits; weight_log = [] })
unfolding weighted check_weight record_weight sleep_ms prune
in_turn =
    ((
      record {
        started = omega arith;
        reading = omega arith;
        close = omega arith;
        slept = omega arith;
        replied = omega arith;
      },
      omega arith,
      tt,
      (
        record {
          started = omega arith;
          reading = omega arith;
          close = omega arith;
          slept = omega arith;
          replied = omega arith;
        },
        omega arith,
        (omega arith, tt),
        (
          record {
            started = omega arith;
            reading = omega arith;
            close = omega arith;
            slept = omega arith;
            replied = omega arith;
          },
          omega arith,
          (omega arith, (omega arith, tt)),
          (
            record {
              started = omega arith;
              reading = omega arith;
              close = omega arith;
              slept = omega arith;
              replied = omega arith;
            },
            omega arith,
            (omega arith, (omega arith, tt)),
            tt,
          ),
        ),
      ),
    ))

sent_below_limit_example : windowed 1_000 1_300 (sent calls) < 3
sent_below_limit_example = sent_below_limit 0 1_300 limits calls in_turn (omega arith) (omega arith)

abbrev live : Stream
live = record {
  depth_pairs = "ETH/USDC" ∷ [];
  trade_pairs = [];
  ticker_pairs = [];
  sockets = 1;
  ping_running = true;
  reconnect_attempts = 8;
  stopped = false;
  timers = [];
  books = [];
}

disconnect_ws-IsQuiet_example :
    IsQuiet
      (record live { timers = 500 ∷ [] })
      (run
        (closed ∷ timer 0 ∷ message "ETH/USDC" [] [] ∷ [])
        (disconnect_ws (record live { timers = 500 ∷ [] })))
disconnect_ws-IsQuiet_example =
    disconnect_ws-IsQuiet (closed ∷ timer 0 ∷ message "ETH/USDC" [] [] ∷ [])
      (record live { timers = 500 ∷ [] }) (tt, (tt, (tt, tt)))

flaps-sockets_example : (run (flaps 5) live).sockets ≡ 1 + at_most 5 (10 - 8)
flaps-sockets_example =
    flaps-sockets 5 live (record { running = refl; subscribed = refl; idle = refl })
