-- ===== src/Exchange/Client/Stream.antt =====
-- exchange.client.ts: the WebSocket stream of `ExchangeClient` and the books that it keeps. The events
-- of the sockets and of the timers come in any order; the texts of the messages are read already.
pub mod Reconnect
use internship_project_peanu.Prelude.{
  ℕ, zero, suc, ◌+◌, ◌-◌, ◌*◌, ◌^◌, ◌≡◌, refl, sym, ap, ◌∙◌, Bool, true, false, not, ◌&&◌, ◌||◌,
  Option, none, some, List, [], ◌∷◌, get_elem?, ◌++◌, String, str_eq, ltb, leb, if_elim,
  if◌then◌else◌, All, arith,
}
use internship_project_peanu.Prelude.Int.{ℤ, pos, ◌+ℤ◌, ◌/ℤ◌, ltb_ℤ}
use internship_project_peanu.Prelude.Dict
use internship_project_peanu.Prelude.Dict.{Dict}
use internship_project_peanu.Exchange.OrderBook.{Level, OrderBook}

pub data Channel : Type 0 where
  depth trade ticker : Channel

-- `sockets` counts the sockets made; `timers` are the delays of the reconnections that wait.
pub record Stream : Type 0 where
  pub depth_pairs : List String
  pub trade_pairs : List String
  pub ticker_pairs : List String
  pub sockets : ℕ
  pub ping_running : Bool
  pub reconnect_attempts : ℕ
  pub stopped : Bool
  pub timers : List ℕ
  pub books : Dict OrderBook

abbrev pub max_reconnect_attempts : ℕ
max_reconnect_attempts = 10

abbrev pub reconnect_base_ms : ℕ
reconnect_base_ms = 500

-- The key of the map of callbacks.
unfoldable pub add_pair : String → List String → List String
add_pair pair [] = pair ∷ []
add_pair pair (p ∷ ps) = let later = add_pair pair ps in if str_eq p pair then p ∷ ps else p ∷ later

abbrev pub subscribe : Channel → String → Stream → Stream
subscribe depth pair s = record s { depth_pairs = add_pair pair s.depth_pairs }
subscribe trade pair s = record s { trade_pairs = add_pair pair s.trade_pairs }
subscribe ticker pair s = record s { ticker_pairs = add_pair pair s.ticker_pairs }

abbrev pub is_empty : List String → Bool
is_empty [] = true
is_empty (p ∷ ps) = false

-- Without any subscription it throws before a socket is made.
unfoldable pub open_socket : Stream → Stream
open_socket s =
    if is_empty s.depth_pairs && is_empty s.trade_pairs && is_empty s.ticker_pairs
    then s
    else record s { sockets = suc s.sockets }

unfoldable pub connect_ws : Stream → Stream
connect_ws s = open_socket (record s { stopped = false })

unfoldable pub disconnect_ws : Stream → Stream
disconnect_ws s = record s { stopped = true; ping_running = false }

unfoldable pub on_open : Stream → Stream
on_open s = record s { reconnect_attempts = 0; ping_running = true }

-- `Math.min(RECONNECT_BASE_MS * 2 ** attempts, 30_000)`
abbrev pub reconnect_delay : ℕ → ℕ
reconnect_delay attempts =
    let ms = reconnect_base_ms * 2 ^ attempts in if ltb ms 30_000 then ms else 30_000

unfoldable pub schedule_reconnect : Stream → Stream
schedule_reconnect s = if leb max_reconnect_attempts s.reconnect_attempts then s else record s {
  timers = s.timers ++ reconnect_delay s.reconnect_attempts ∷ [];
  reconnect_attempts = suc s.reconnect_attempts;
}

unfoldable pub on_close : Stream → Stream
on_close s =
    let quiet = record s { ping_running = false } in
    if s.stopped then quiet else schedule_reconnect quiet

abbrev pub without : ℕ → List ℕ → List ℕ
without i [] = []
without zero (t ∷ ts) = ts
without (suc i) (t ∷ ts) = t ∷ without i ts

-- The callback of a timer that waits.
abbrev pub fired : Option ℕ → ℕ → Stream → Stream
fired none i s = s
fired (some delay) i s =
    let rest = record s { timers = without i s.timers } in
    if s.stopped then rest else open_socket rest

unfoldable pub on_timer : ℕ → Stream → Stream
on_timer i s = fired (get_elem? s.timers i) i s

abbrev pub best_of : List Level → Level
best_of [] = (pos 0, pos 0)
best_of (level ∷ levels) = level

unfoldable pub parse_depth : List Level → List Level → OrderBook
parse_depth bids asks =
    let bid = best_of bids in
    let ask = best_of asks in
    record {
      bids = bids;
      asks = asks;
      best_bid = bid;
      best_ask = ask;
      mid_price =
          if ltb_ℤ (pos 0) bid.0 && ltb_ℤ (pos 0) ask.0 then (bid.0 +ℤ ask.0) /ℤ pos 2 else pos 0;
    }

unfoldable pub on_depth : String → List Level → List Level → Stream → Stream
on_depth pair bids asks s = record s { books = Dict.put pair (parse_depth bids asks) s.books }

abbrev pub get_book : String → Stream → Option OrderBook
get_book pair s = Dict.get pair s.books
