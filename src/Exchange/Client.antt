-- ===== src/Exchange/Client.antt =====
-- exchange/cexClient/exchange.client.ts: the limit on the weight of the requests of `ExchangeClient`, and
-- its errors. What ccxt answers is given; the readings of the clock are arguments.
pub mod Answers
pub mod Weights
pub mod Limit
pub mod Stream
mod Tests
use internship_project_peanu.Prelude.{
  ℕ, ◌+◌, ◌-◌, ◌==◌, Bool, true, false, ◌&&◌, Option, none, some, List, [], ◌∷◌, ◌++◌, map, String,
  ltb, if◌then◌else◌,
}
use internship_project_peanu.Prelude.Int.{ℤ, pos, ◌+ℤ◌, ◌/ℤ◌, eqb_ℤ}
use internship_project_peanu.Prelude.Double.{Double}
use internship_project_peanu.Prelude.Dict
use internship_project_peanu.Prelude.Dict.{Dict}
use internship_project_peanu.Core.{price_scale}
use internship_project_peanu.Exchange.OrderBook.{Level, OrderBook}

-- What ccxt throws: the first of the classes tested that the error belongs to.
pub data CcxtError : Type 0 where
  authentication rate_limit_exceeded invalid_nonce invalid_order insufficient_funds network_error
        exchange_error other_error :
      CcxtError

-- The classes of exchange.errors.ts that the calls throw.
pub data ClientError : Type 0 where
  auth rate_limit network filter order : ClientError

pub data Reply (A : Type 0) : Type 0 where
  answered : A → Reply A
  thrown : CcxtError → Reply A

pub data Outcome (A : Type 0) : Type 0 where
  returned : A → Outcome A
  failed : ClientError → Outcome A

abbrev pub domain_error : CcxtError → ClientError
domain_error authentication = auth
domain_error rate_limit_exceeded = rate_limit
domain_error invalid_nonce = network
domain_error invalid_order = filter
domain_error insufficient_funds = order
domain_error network_error = network
domain_error exchange_error = order
domain_error other_error = network

abbrev pub call_exchange : {A : Type 0} → Reply A → Outcome A
call_exchange (answered a) = returned a
call_exchange (thrown e) = failed (domain_error e)

pub record EndpointWeights : Type 0 where
  pub order_book : ℕ
  pub balance : ℕ
  pub create_order : ℕ
  pub cancel_order : ℕ
  pub fetch_order : ℕ
  pub trading_fees : ℕ

pub record RateLimitConfig : Type 0 where
  pub weight_limit : ℕ
  pub window_ms : ℕ
  pub weights : EndpointWeights

pub record WeightEntry : Type 0 where
  pub time : ℕ
  pub weight : ℕ

pub record ExchangeClient : Type 0 where
  pub rate_limit : RateLimitConfig
  pub weight_log : List WeightEntry

-- `while (log[0].time < now - windowMs) log.shift()`
unfoldable pub prune : ℕ → ℕ → List WeightEntry → List WeightEntry
prune window_ms now [] = []
prune window_ms now (e ∷ es) =
    let rest = prune window_ms now es in if ltb (e.time + window_ms) now then rest else e ∷ es

abbrev pub used : List WeightEntry → ℕ
used [] = 0
used (e ∷ es) = e.weight + used es

-- The milliseconds to sleep, 0 where the code does not.
unfoldable pub sleep_ms : ℕ → ℕ → RateLimitConfig → List WeightEntry → ℕ
sleep_ms weight read r [] = 0
sleep_ms weight read r (oldest ∷ es) =
    if ltb (used (oldest ∷ es) + weight) r.weight_limit
    then 0
    else (r.window_ms + oldest.time + 50) - read

-- What the clock gives in a call: when the log is pruned, when the sleep is computed, after the
-- sleep, and when the answer is there.
pub record Times : Type 0 where
  pub checked : ℕ
  pub read : ℕ
  pub woke : ℕ
  pub answered_at : ℕ

unfoldable pub check_weight : ℕ → Times → ExchangeClient → ExchangeClient
check_weight weight t c =
    let window_ms = c.rate_limit.window_ms in
    let ready = prune window_ms t.checked c.weight_log in
    record c {
      weight_log =
          if sleep_ms weight t.read c.rate_limit ready == 0
          then ready
          else prune window_ms t.woke ready;
    }

unfoldable pub record_weight : ℕ → ℕ → ExchangeClient → ExchangeClient
record_weight weight now c = record c {
  weight_log = c.weight_log ++ record { time = now; weight = weight } ∷ [];
}

-- A call that throws is not recorded.
abbrev pub after_reply :
    {A : Type 0} → ℕ → ℕ → Reply A → ExchangeClient → Outcome A × ExchangeClient
after_reply weight now (answered a) c = (returned a, record_weight weight now c)
after_reply weight now (thrown e) c = (failed (domain_error e), c)

unfoldable pub weighted :
    {A : Type 0} → ℕ → Times → Reply A → ExchangeClient → Outcome A × ExchangeClient
weighted weight t reply c = after_reply weight t.answered_at reply (check_weight weight t c)

module _ {A B : Type 0} where
  -- What the method makes of the answer.
  abbrev pub made : (A → Outcome B) → Outcome A × ExchangeClient → Outcome B × ExchangeClient
  made next (failed e, c) = (failed e, c)
  made next (returned a, c) = (next a, c)
