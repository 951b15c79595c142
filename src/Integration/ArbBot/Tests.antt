-- ===== src/Integration/ArbBot/Tests.antt =====
-- The theorems on the bot, on a small market; fractions are numbers of three decimals.
use internship_project_peanu.Prelude.{
  ◌≡◌, refl, true, false, none, some, List, [], ◌∷◌, ◌++◌, ◌↔◌, str_eq, arith, if◌then◌else◌,
}
use internship_project_peanu.Prelude.Int.{ℤ, pos, negsuc, ◌-ℤ◌, ◌*ℤ◌, ◌/ℤ◌, neg}
use internship_project_peanu.Prelude.Result.{ok, err, exchange_failed}
use internship_project_peanu.Prelude.Double.{milli}
use internship_project_peanu.Prelude.Dict
use internship_project_peanu.Prelude.Dict.{Dict}
use internship_project_peanu.Core.{Token}
use internship_project_peanu.Inventory.Tracker.{
  InventoryTracker, Balance, binance, wallet, update_from_cex, update_from_wallet,
  require_venue_map,
}
use internship_project_peanu.Exchange.OrderBook.{OrderBook}
use internship_project_peanu.Strategy.Signal.{Signal, buy_cex_sell_dex}
use internship_project_peanu.Strategy.Generator.{Market}
use internship_project_peanu.Safety.Risk.{RiskManager, default_risk_limits}
use internship_project_peanu.Safety.KillSwitch
use internship_project_peanu.Executor.Engine.Context.{
  ExecutionContext, Executor, Clients, Clock, Request, LegVenue, cex, dex,
}
use internship_project_peanu.Integration.ArbBot.{Bot, SyncAnswers, idle, sync_balances}
use internship_project_peanu.Integration.ArbBot.Flight.{deciding, GateAnswers, Answers}
use internship_project_peanu.Integration.ArbBot.Decide.{decide}
use internship_project_peanu.Integration.ArbBot.Trade.{execute_real, settle}
use internship_project_peanu.Integration.ArbBot.Trade.Cases.{with_checks, execute_real-with_checks}
use internship_project_peanu.Integration.ArbBot.Trade.Outcomes.{IsNear, settle-stopping}
use internship_project_peanu.Integration.ArbBot.Events.{
  Event, book_update, tick, resume, sync, daily_check, stop_command, stop_message, panel_sent,
  System, advance, handle, run,
}
use internship_project_peanu.Integration.ArbBot.Events.Single.{Matches, run-Matches}
use internship_project_peanu.Integration.ArbBot.Events.DryRun.{IsDryRun, run-IsDryRun}
use internship_project_peanu.Integration.ArbBot.Events.Stop.{run-stop, run-missed_stop}
use internship_project_peanu.Integration.ArbBot.Events.Phases.{Steps, phase_of, run-Steps}
use internship_project_peanu.Integration.ArbBot.Events.Errors.{Counted, advance-Counted}

-- Asks at 2000, bids at 1999; the pool buys at 2020 and sells at 2030.
abbrev book : OrderBook
book = record {
  bids = (pos 199_900_000_000, pos 500_000_000) ∷ [];
  asks = (pos 200_000_000_000, pos 500_000_000) ∷ [];
  best_bid = (pos 199_900_000_000, pos 500_000_000);
  best_ask = (pos 200_000_000_000, pos 500_000_000);
  mid_price = pos 199_950_000_000;
}

abbrev market : Market
market = record {
  book = book;
  amm_quote = some (λ token_in token_out amount.
      if str_eq token_in.symbol "ETH" then ok (amount *ℤ pos 2_020) else ok (amount /ℤ pos 2_030));
  max_fee_wei = none;
  signal_id = "s1";
  cooldown_check = 10_000;
  gas_check = 10_000;
  gas_fetched = 10_000;
  created = 10_001;
  recorded = 10_002;
}

abbrev eth : Token
eth = record { address = record { value = "0xa" }; symbol = "ETH"; decimals = 8 }

abbrev usdc : Token
usdc = record { address = record { value = "0xb" }; symbol = "USDC"; decimals = 8 }

abbrev at_binance : Dict Balance
at_binance =
    ("USDC", record { venue = binance; asset = "USDC"; free = pos 500_000_000_000; locked = pos 0 })
    ∷ []

abbrev at_wallet : Dict Balance
at_wallet =
    ("ETH", record { venue = wallet; asset = "ETH"; free = pos 900_000_000; locked = pos 0 }) ∷ []

abbrev tracker : InventoryTracker
tracker = record { balances = ("binance", at_binance) ∷ ("wallet", at_wallet) ∷ [] }

abbrev manager : RiskManager ℤ
manager = record {
  limits = default_risk_limits milli;
  peak_capital = pos 10_000_000_000;
  current_capital = pos 10_000_000_000;
  daily_pnl = pos 0;
  consecutive_losses = 0;
  trade_timestamps = [];
}

abbrev executor : Executor
executor = record {
  min_fill_scaled = pos 8_000;
  use_flashbots = false;
  simulation_mode = false;
  dex_slippage_bps = pos 50;
  pair_tokens = none;
  trading_rules = [];
  combined_fee_rate_bps = pos 40;
  circuit_breaker = record {
    failure_threshold = 3;
    window_ms = 300_000;
    cooldown_ms = 600_000;
    failures = [];
    tripped_at = none;
  };
  replay_protection = record { ttl_ms = 60_000; executed = [] };
  inventory = tracker;
}

abbrev bot : Bot ℤ
bot = record {
  config = record { min_score = pos 0; min_profit = some (pos 0); simulation_mode = false };
  inventory = tracker;
  fees = record { cex_taker_bps = pos 10; dex_swap_bps = pos 30; gas_cost = pos 1_000 };
  planner = record {
    tracker = tracker;
    rebalance_threshold_pct = pos 30_000;
    withdrawal_fees = [];
    min_operating_balance = [];
    target_ratio = λ venue. pos 500;
  };
  pnl = record { trades = [] };
  scorer = record {
    spread_weight = pos 400;
    liquidity_weight = pos 200;
    inventory_weight = pos 200;
    history_weight = pos 200;
    excellent_spread_bps = pos 100_000;
    min_spread_bps = pos 30_000;
    recent_results = [];
  };
  risk_manager = manager;
  pre_trade = record {
    max_spread_bps = pos 500_000;
    max_signal_age_s = pos 5_000;
    max_price_deviation = pos 50;
    price_history_size = 20;
    price_history = [];
  };
  auto_kill = KillSwitch.new;
  kill_switch_cache = KillSwitch.fresh_cache;
  generator = record {
    inventory = tracker;
    fees = record { cex_taker_bps = pos 10; dex_swap_bps = pos 30; gas_cost = pos 1_000 };
    min_spread_bps = pos 50_000;
    trade_size_min = pos 1_000_000_000;
    trade_size_max = pos 1_000_000_000;
    trade_size_steps = 5;
    min_profit = pos 1_000_000;
    max_position = pos 100_000_000_000;
    signal_ttl_ms = 5_000;
    cooldown_ms = 2_000;
    pair_tokens = ("ETH/USDC", (eth, usdc)) ∷ [];
    swap_gas_units = pos 150_000;
    last_signal_time = [];
    last_logged_prices = [];
    gas_cache = none;
  };
  executor = executor;
  loaded = none;
  starting_capital = pos 10_000_000_000;
  base_pair = "ETH";
  quote_pair = "USDC";
  tick_state = idle;
  stopping = false;
  stop_sending = false;
  waiting = false;
  ended = false;
  daily_loss_alerted = false;
  circuit_breaker_notified = false;
  daily_trade_count = 0;
  daily_net_pnl = pos 0;
  daily_wins = 0;
  last_reset_day = 1;
  gas_cache = none;
  latest_books = [];
}

-- A venue that answers every request with an error.
abbrev clients : Clients ℤ
clients = record {
  create_limit_ioc_order = λ pair side qty price. err (exchange_failed "down");
  create_market_order = λ pair side qty. err (exchange_failed "down");
  has_pricing_engine = false;
  has_chain = false;
  sender = record { value = "0xab" };
  base_fee = ok (pos 1);
  get_quote = λ token_in token_out amount gas sender. err (exchange_failed "down");
  send_and_wait = λ s. err (exchange_failed "down");
  transfer_topic = "transfer";
  decode_event_log = λ l. none;
}

abbrev clock : Clock
clock = record {
  started = 12_000;
  breaker_check = 12_000;
  duplicate_check = 12_000;
  validity_check = 12_001;
  expiry_check = 12_001;
  dex_leg = 12_002;
  unwinding = 12_700;
  leg1_late = false;
  leg2_late = false;
  marked = 12_600;
  failure = 12_600;
  trip = 12_600;
  finished = 12_601;
}

abbrev gates : GateAnswers
gates = record { file_check = 5_000; file_exists = false; status = 5_000; kill_check = 5_000 }

abbrev balances : SyncAnswers
balances = record {
  cex = ok [];
  native_raw = ok (pos 9_000_000_000_000_000_000);
  base_raw = ok (pos 0);
  quote_raw = ok (pos 0);
}

abbrev answers : Answers ℤ
answers = record {
  decide = record {
    gas = record { check = 10_000; max_fee = ok (pos 1_000_000_000); fetched = 10_000 };
    market = market;
    validity = 10_010;
    decay = 10_010;
    risk_check = 10_010;
    status = 10_010;
    recorded = 10_010;
  };
  trade = record {
    market = record market { signal_id = "s2"; created = 11_000 };
    breaker_check = 12_000;
    clients = clients;
    clock = clock;
    recorded = 12_700;
    status = 12_700;
    failure = 12_700;
  };
  settle = record { sync = balances; failure = 13_000 };
}

abbrev start : System ℤ
start = record { bot = bot; flights = []; sent = [] }

-- A tick that runs through, with other events in between and a second tick that finds it busy.
abbrev events : List (Event ℤ)
events =
    book_update "ETH/USDC" book
    ∷ tick "ETH/USDC" book gates
    ∷ tick "ETH/USDC" book gates
    ∷ sync balances
    ∷ resume 0 answers
    ∷ resume 0 answers
    ∷ daily_check 13_000 2
    ∷ resume 0 answers
    ∷ []

run-Matches_example :
    Matches (run milli events start).flights (run milli events start).bot.tick_state
run-Matches_example = run-Matches milli events start refl

run-Steps_example :
    (requests : List (Request ℤ)) × Steps
      (phase_of start.flights)
      requests
      (phase_of (run milli events start).flights)
    × ((run milli events start).sent ≡ [] ++ requests)
run-Steps_example = run-Steps milli events start refl

abbrev dry : System ℤ
dry = record start { bot = record bot { config = record bot.config { simulation_mode = true } } }

dry-IsDryRun : IsDryRun milli dry
unfolding default_risk_limits ◌*ℤ◌ ◌-ℤ◌ neg
dry-IsDryRun = record {
  bot = record {
    simulation = refl;
    daily_limit = ground arith;
    trade_limit = ground arith;
    contained = record {
      daily = ground arith;
      streak = ground arith;
      hourly = ground arith;
      peak = ground arith;
    };
    same_day = refl;
  };
  deciding_only = tt;
  unsent = refl;
}

run-IsDryRun_example : IsDryRun milli (run milli events dry)
run-IsDryRun_example = run-IsDryRun milli events dry dry-IsDryRun

abbrev waits : System ℤ
waits = record start { bot = record bot { waiting = true } }

run-stop_example :
    (handle milli stop_message (run milli (stop_command ∷ events) waits)).bot.ended ≡ true
run-stop_example = run-stop milli events waits refl refl

run-missed_stop_example :
    (run milli (stop_command ∷ stop_message ∷ panel_sent ∷ stop_command ∷ []) start).bot.ended
    ≡ false
run-missed_stop_example =
    run-missed_stop milli (panel_sent ∷ stop_command ∷ []) start refl refl refl

-- The wallet holds 9 ETH, and the exchange has lost 5 dollars.
abbrev expected : ℤ × ℤ
expected = (pos 900_000_000, pos 500_500_000_000)

sync_succeeds : (sync_balances balances bot).0 ≡ ok tt
unfolding sync_balances update_from_cex require_venue_map Dict.get update_from_wallet Dict.put
sync_succeeds = refl

settle-stopping_example :
    ((settle answers.settle "ETH/USDC" (some expected) bot).stopping ≡ false)
    ↔ IsNear "ETH/USDC" expected (sync_balances balances bot).1
settle-stopping_example = settle-stopping answers.settle "ETH/USDC" expected bot sync_succeeds refl

advance-Counted_example :
    Counted answers
      (deciding "ETH/USDC" book)
      KillSwitch.new
      (advance milli answers (deciding "ETH/USDC" book) bot).1.auto_kill
advance-Counted_example = advance-Counted milli answers (deciding "ETH/USDC" book) bot

abbrev signal : Signal ℤ
signal = record {
  signal_id = "s1";
  pair = "ETH/USDC";
  direction = buy_cex_sell_dex;
  cex_price = pos 200_000_000_000;
  dex_price = pos 202_000_000_000;
  spread_bps = pos 100_000;
  size = pos 500_000;
  expected_gross_pnl = pos 10_000_000;
  expected_fees = pos 1_000_000;
  expected_net_pnl = pos 9_000_000;
  score = pos 80_000;
  timestamp = 1_000;
  expiry = 6_000;
  inventory_ok = true;
  within_limits = true;
}

-- A risk manager that has lost everything.
abbrev ruined : RiskManager ℤ
ruined = record manager { current_capital = pos 0; daily_pnl = negsuc 9_999_999_999 }

execute_real-with_checks_example :
    (execute_real milli answers.trade signal "ETH/USDC" book
      (with_checks ruined bot.pre_trade bot.scorer bot)).0
    ≡ (execute_real milli answers.trade signal "ETH/USDC" book bot).0
execute_real-with_checks_example =
    execute_real-with_checks milli answers.trade signal "ETH/USDC" book ruined bot.pre_trade
      bot.scorer bot

abbrev filled : ExecutionContext ℤ
filled = record {
  signal = signal;
  state = internship_project_peanu.Executor.Engine.Context.done;
  visited = [];
  leg1_venue = some cex;
  leg1_fill_price = some (pos 200_000_000_000);
  leg1_fill_size = some (pos 500_000);
  leg2_venue = some dex;
  leg2_fill_price = some (pos 202_000_000_000);
  leg2_fill_size = some (pos 500_000);
  started_at = 2_000;
  finished_at = none;
  actual_net_pnl_usd = none;
  error = none;
}
