-- ===== src/Executor/Engine/Context.antt =====
-- engine.interfaces.ts and what engine.service.ts keeps: the executor, the context of one execution,
-- the results of a leg. The clients of the exchange and of the chain are an interface: what they
-- answer is given. The texts of errors are constructors, without the amounts formatted into them.
use Prim.Native.Char.{code}
use internship_project_peanu.Prelude.{
  ℕ, ◌==◌, Bool, Option, none, some, List, [], ◌∷◌, ◌++◌, String, if◌then◌else◌,
}
use internship_project_peanu.Prelude.Int.{ℤ, pos}
use internship_project_peanu.Prelude.Result.{Error, Result, ok, err}
use internship_project_peanu.Prelude.Dict.{Dict}
use internship_project_peanu.Core.{Address, Token}
use internship_project_peanu.Strategy.Signal.{Signal}
use internship_project_peanu.Exchange.Rounding.{TradingRules}
use internship_project_peanu.Inventory.Tracker.{InventoryTracker, Shortage, Side}
use internship_project_peanu.Executor.CircuitBreaker.{CircuitBreaker}
use internship_project_peanu.Executor.Replay.{ReplayProtection}

pub data ExecutorState : Type 0 where
  idle validating leg1_pending leg1_filled leg2_pending done failed unwinding : ExecutorState

-- `'cex'` and `'dex'`
pub data LegVenue : Type 0 where
  cex dex : LegVenue

pub data LegError : Type 0 where
  thrown : Error → LegError
  size_rounded_to_zero : LegError
  below_min_notional : LegError
  order_status : String → LegError
  no_transfer_log : LegError

pub record LegResult : Type 0 where
  pub success : Bool
  pub price : ℤ
  pub filled : ℤ
  pub error : Option LegError

pub data Failure : Type 0 where
  circuit_breaker_open : Failure
  duplicate_signal : Failure
  -- expired, inventory insufficient, exceeds the position
  signal_invalid : Bool → Bool → Bool → Failure
  insufficient_inventory : Option Shortage → Failure
  leg1_timeout : LegVenue → Failure
  leg1_rejected : LegVenue → Option LegError → Failure
  partial_fill : Failure
  leg2_timeout : LegVenue → Failure
  leg2_failed : LegVenue → Option LegError → Failure

-- `leg1OrderId` and `leg2TxHash` are never set. `visited` is no field of the code: it keeps every
-- value that `state` is given, the latest last.
pub record ExecutionContext (D : Type 0) : Type 0 where
  pub signal : Signal D
  pub state : ExecutorState
  pub visited : List ExecutorState
  pub leg1_venue : Option LegVenue
  pub leg1_fill_price : Option ℤ
  pub leg1_fill_size : Option ℤ
  pub leg2_venue : Option LegVenue
  pub leg2_fill_price : Option ℤ
  pub leg2_fill_size : Option ℤ
  pub started_at : ℕ
  pub finished_at : Option ℕ
  pub actual_net_pnl_usd : Option ℤ
  pub error : Option Failure

pub record Executor : Type 0 where
  pub min_fill_scaled : ℤ
  pub use_flashbots : Bool
  pub simulation_mode : Bool
  pub dex_slippage_bps : ℤ
  pub pair_tokens : Option (Dict (Token × Token))
  pub trading_rules : Dict TradingRules
  -- `profile.trading.combinedFeeRateBps`
  pub combined_fee_rate_bps : ℤ
  pub circuit_breaker : CircuitBreaker
  pub replay_protection : ReplayProtection
  pub inventory : InventoryTracker

-- A call of the router's `swapExactTokensForTokens`.
pub record Swap : Type 0 where
  pub amount_in : ℤ
  pub amount_out_min : ℤ
  pub token_in : Token
  pub token_out : Token
  pub deadline : ℤ

-- What leaves the program.
pub data Request (D : Type 0) : Type 0 where
  limit_ioc_order : String → Side → D → D → Request D
  market_order : String → Side → D → Request D
  swap : Swap → Request D
  unwind_swap : Swap → Request D

pub record OrderResult : Type 0 where
  pub amount_filled : ℤ
  pub avg_fill_price : ℤ
  pub status : String

pub record Quote : Type 0 where
  pub simulated_output : ℤ
  pub expected_output : ℤ
  pub is_valid : Bool

pub record Log : Type 0 where
  pub address : Address
  pub topic : String
  pub payload : String

-- What the exchange, the pricing engine and the chain answer in one execution.
pub record Clients (D : Type 0) : Type 0 where
  pub create_limit_ioc_order : String → Side → D → D → Result OrderResult
  pub create_market_order : String → Side → D → Result OrderResult
  pub has_pricing_engine : Bool
  pub has_chain : Bool
  pub sender : Address
  pub base_fee : Result ℤ
  pub get_quote : Token → Token → ℤ → ℤ → Address → Result Quote
  pub send_and_wait : Swap → Result (List Log)
  pub transfer_topic : String
  -- viem's `decodeEventLog`: the recipient and the value, nothing where it throws
  pub decode_event_log : Log → Option (Address × ℤ)

-- The readings of the clock, in the order of the calls, and whether each leg is late.
pub record Clock : Type 0 where
  pub started : ℕ
  pub breaker_check : ℕ
  pub duplicate_check : ℕ
  pub validity_check : ℕ
  pub expiry_check : ℕ
  pub dex_leg : ℕ
  pub unwinding : ℕ
  pub leg1_late : Bool
  pub leg2_late : Bool
  pub marked : ℕ
  pub failure : ℕ
  pub trip : ℕ
  pub finished : ℕ

abbrev pub enter : {D : Type 0} → ExecutorState → ExecutionContext D → ExecutionContext D
enter s ctx = record ctx { state = s; visited = ctx.visited ++ s ∷ [] }

unfoldable pub make_context : {D : Type 0} → ℕ → Signal D → ExecutionContext D
make_context now signal = record {
  signal = signal;
  state = idle;
  visited = idle ∷ [];
  leg1_venue = none;
  leg1_fill_price = none;
  leg1_fill_size = none;
  leg2_venue = none;
  leg2_fill_price = none;
  leg2_fill_size = none;
  started_at = now;
  finished_at = none;
  actual_net_pnl_usd = none;
  error = none;
}

unfoldable pub fail : {D : Type 0} → Failure → ExecutionContext D → ExecutionContext D
fail error ctx = record (enter failed ctx) { error = some error }

abbrev pub failed_leg : LegError → LegResult
failed_leg e = record { success = Bool.false; price = pos 0; filled = pos 0; error = some e }

abbrev pub caught : Result LegResult → LegResult
caught (ok leg) = leg
caught (err e) = failed_leg (thrown e)

-- A leg that is late answers nothing; one that throws has failed. The late one still runs on.
unfoldable pub with_timeout : Bool → Result LegResult → Option LegResult
with_timeout late r = if late then none else some (caught r)

-- `pair.split('/')`, whose first two parts are the base and the quote.
pub before_slash : String → String
before_slash String.[] = String.[]
before_slash (String.◌∷◌ c s) =
    let rest = before_slash s in if code c == b'/' then String.[] else String.◌∷◌ c rest

pub after_slash : String → String
after_slash String.[] = String.[]
after_slash (String.◌∷◌ c s) = let rest = after_slash s in if code c == b'/' then s else rest

unfoldable pub split_pair : String → String × String
unfolding before_slash after_slash
split_pair pair = (before_slash pair, before_slash (after_slash pair))
