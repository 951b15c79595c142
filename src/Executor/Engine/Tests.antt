-- ===== src/Executor/Engine/Tests.antt =====
-- The theorems of executor/engine/ on concrete executions; fractions are numbers of three decimals.
use mathlib.Core.Bool.{true≢false}
use internship_project_peanu.Prelude.{
  ◌≡◌, ◌≢◌, refl, sym, ap, true, false, none, some, [], ◌∷◌, String, str_eq, ◌⊎◌, arith,
}
use internship_project_peanu.Prelude.Int.{ℤ, pos, ◌+ℤ◌, ◌-ℤ◌, ◌*ℤ◌, ◌/ℤ◌, neg}
use internship_project_peanu.Prelude.Result.{ok, err, exchange_failed}
use internship_project_peanu.Prelude.Double.{milli}
use internship_project_peanu.Prelude.Dict
use internship_project_peanu.Prelude.Dict.{Dict}
use internship_project_peanu.Core.{Address}
use internship_project_peanu.Strategy.Signal.{Signal, buy_cex_sell_dex, is_valid}
use internship_project_peanu.Inventory.Tracker.{
  Balance, InventoryTracker, binance, wallet, buy, sell, get_available, can_execute, signed_quote,
  record_trade, require_venue_map,
}
use internship_project_peanu.Executor.CircuitBreaker.{CircuitBreaker, is_open}
use internship_project_peanu.Executor.Replay.{
  ReplayProtection, is_duplicate, cleanup, mark_executed,
}
use internship_project_peanu.Executor.Engine.Context.{
  Executor, ExecutionContext, Clients, Clock, Request, cex, dex, LegResult, OrderResult, Quote, Log,
  make_context, fail, with_timeout, split_pair, partial_fill,
}
use internship_project_peanu.Executor.Engine.Legs.{execute_cex_leg, execute_dex_leg}
use internship_project_peanu.Executor.Engine.Booking.{
  record_trades, calculate_pnl, leg1_trade, leg2_trade,
}
use internship_project_peanu.Executor.Engine.Booking.Totals.{Known, total_of, record_trades_totals}
use internship_project_peanu.Executor.Engine.Booking.Profit.{
  gross_earned, fee_estimate, calculate_pnl-gross_earned,
}
use internship_project_peanu.Executor.Engine.Run.{
  execute, run_legs, inventory_check, execute_new, execute_dex_first, leg2_cex, complete,
}
use internship_project_peanu.Executor.Engine.Run.Trail.{Trailed, execute-Trailed}
use internship_project_peanu.Executor.Engine.Run.Once.{
  Untouched, MayRun, Attempt, Started, attempt, attempts, execute_guards, executed_once,
}

abbrev at_binance : Dict Balance
at_binance =
    ("USDC", record { venue = binance; asset = "USDC"; free = pos 500_000_000_000; locked = pos 0 })
    ∷ []

abbrev at_wallet : Dict Balance
at_wallet =
    ("ETH", record { venue = wallet; asset = "ETH"; free = pos 900_000_000; locked = pos 0 }) ∷ []

abbrev tracker : InventoryTracker
tracker = record { balances = ("binance", at_binance) ∷ ("wallet", at_wallet) ∷ [] }

abbrev breaker : CircuitBreaker
breaker = record {
  failure_threshold = 3;
  window_ms = 300_000;
  cooldown_ms = 600_000;
  failures = [];
  tripped_at = none;
}

abbrev protection : ReplayProtection
protection = record { ttl_ms = 60_000; executed = [] }

abbrev executor : Executor
executor = record {
  min_fill_scaled = pos 8_000;
  use_flashbots = true;
  simulation_mode = true;
  dex_slippage_bps = pos 50;
  pair_tokens = none;
  trading_rules = [];
  combined_fee_rate_bps = pos 40;
  circuit_breaker = breaker;
  replay_protection = protection;
  inventory = tracker;
}

abbrev address : Address
address = record { value = "0xab" }

-- A venue that answers every request with an error.
abbrev clients : Clients ℤ
clients = record {
  create_limit_ioc_order = λ pair side qty price. err (exchange_failed "down");
  create_market_order = λ pair side qty. err (exchange_failed "down");
  has_pricing_engine = false;
  has_chain = false;
  sender = address;
  base_fee = ok (pos 1);
  get_quote = λ token_in token_out amount gas sender. err (exchange_failed "down");
  send_and_wait = λ s. err (exchange_failed "down");
  transfer_topic = "transfer";
  decode_event_log = λ l. none;
}

abbrev clock : Clock
clock = record {
  started = 2_000;
  breaker_check = 2_000;
  duplicate_check = 2_000;
  validity_check = 2_001;
  expiry_check = 2_001;
  dex_leg = 2_002;
  unwinding = 2_700;
  leg1_late = false;
  leg2_late = false;
  marked = 2_600;
  failure = 2_600;
  trip = 2_600;
  finished = 2_601;
}

-- Half an ETH at 2000 dollars, sold at 2020.
abbrev signal : Signal ℤ
signal = record {
  signal_id = "s1";
  pair = "ETH/USDC";
  direction = buy_cex_sell_dex;
  cex_price = pos 200_000_000_000;
  dex_price = pos 202_000_000_000;
  spread_bps = pos 100_000;
  size = pos 50_000_000;
  expected_gross_pnl = pos 1_000_000_000;
  expected_fees = pos 400_000_000;
  expected_net_pnl = pos 600_000_000;
  score = pos 80_000;
  timestamp = 1_000;
  expiry = 6_000;
  inventory_ok = true;
  within_limits = true;
}

execute-Trailed_example : Trailed (execute milli clients clock executor signal).result
execute-Trailed_example = execute-Trailed milli clients clock executor signal

execute_guards_example :
    Untouched executor (execute milli clients clock executor signal) ⊎ MayRun clock executor signal
execute_guards_example = execute_guards milli clients clock executor signal

abbrev first : Attempt ℤ
first = record { clients = clients; clock = clock; signal = signal }

abbrev other : Attempt ℤ
other = record { clients = clients; clock = clock; signal = record signal { signal_id = "s2" } }

abbrev again : Attempt ℤ
again = record {
  clients = clients;
  clock = record clock { duplicate_check = 20_000 };
  signal = signal;
}

first-Started : Started milli (attempt milli first executor).result
unfolding execute execute_new run_legs execute_dex_first leg2_cex complete record_trades
    inventory_check can_execute get_available Dict.get is_valid is_open is_duplicate cleanup
    make_context with_timeout execute_dex_leg execute_cex_leg split_pair ◌*ℤ◌ ◌/ℤ◌ mark_executed
    Dict.filter_values record_trade require_venue_map Dict.put
first-Started = (dex, refl)

other_differs : ◌≢◌ {A = String} "s2" "s1"
other_differs same = true≢false (sym (ap (str_eq "s1") same))

executed_once_example :
    let later = attempts milli (other ∷ []) (attempt milli first executor).executor in
    Untouched later (attempt milli again later)
executed_once_example =
    executed_once milli executor first (other ∷ []) again tt first-Started
      ((other_differs, ground arith, ground arith), tt) refl (ground arith)

abbrev filled : ExecutionContext ℤ
filled = record {
  signal = signal;
  state = internship_project_peanu.Executor.Engine.Context.leg2_pending;
  visited = [];
  leg1_venue = some cex;
  leg1_fill_price = some (pos 200_000_000_000);
  leg1_fill_size = some (pos 50_000_000);
  leg2_venue = some dex;
  leg2_fill_price = some (pos 202_000_000_000);
  leg2_fill_size = some (pos 50_000_000);
  started_at = 2_000;
  finished_at = none;
  actual_net_pnl_usd = none;
  error = none;
}

abbrev real : Executor
real = record executor { simulation_mode = false; use_flashbots = false }

abbrev half_filled : LegResult
half_filled = record {
  success = true;
  price = pos 200_000_000_000;
  filled = pos 25_000_000;
  error = none;
}

tracker-Known : Known tracker
unfolding Dict.get
tracker-Known = record {
  at_binance = at_binance;
  at_wallet = at_wallet;
  binance_known = refl;
  wallet_known = refl;
}

assets_differ : (split_pair "ETH/USDC").1 ≢ (split_pair "ETH/USDC").0
unfolding split_pair
assets_differ same = true≢false (sym (ap (str_eq "ETH") same))

record_trades_totals_example :
    let x = leg1_trade (pos 40) filled in
    let y = leg2_trade (pos 40) filled in
    let (base, quote) = split_pair "ETH/USDC" in
    (t' : InventoryTracker) × (record_trades (pos 40) filled tracker ≡ (t', none))
    × (total_of base t' ≡ total_of base tracker)
    × (total_of quote t'
        ≡ total_of quote tracker
          +ℤ (signed_quote buy x.quote_amount
              +ℤ neg x.fee
              +ℤ (signed_quote sell y.quote_amount +ℤ neg y.fee)))
record_trades_totals_example =
    record_trades_totals (pos 40) filled tracker tracker-Known assets_differ refl

calculate_pnl-gross_earned_example :
    calculate_pnl filled ≡ gross_earned filled -ℤ fee_estimate filled
calculate_pnl-gross_earned_example = calculate_pnl-gross_earned filled
