-- ===== src/Strategy/Tests.antt =====
-- The theorems of strategy/ on a small market; fractions are numbers of three decimals.
use mathlib.Core.Bool.{true≢false}
use internship_project_peanu.Prelude.{
  ◌≡◌, ◌≢◌, Bool, true, false, List, refl, ap, sym, Option, none, some, [], ◌∷◌, String, str_eq,
  if◌then◌else◌, arith,
}
use internship_project_peanu.Prelude.Int.{ℤ, pos, ◌+ℤ◌, ◌-ℤ◌, ◌*ℤ◌, ◌/ℤ◌}
use internship_project_peanu.Prelude.Result.{Result, ok}
use internship_project_peanu.Prelude.Double.{milli}
use internship_project_peanu.Prelude.Dict
use internship_project_peanu.Core.{Token}
use internship_project_peanu.Inventory.Tracker.{get_available}
use internship_project_peanu.Exchange.OrderBook.{walk_the_book, walk_scaled, walk_levels}
use internship_project_peanu.Strategy.Fees.{total_fee}
use internship_project_peanu.Strategy.Generator.{
  SignalGenerator, Market, generate, generate_core, fetch_prices, find_best_prices, evaluate,
  signal_of, in_cooldown, fetch_live_gas_cost,
}
use internship_project_peanu.Strategy.Levels.{
  PriceLevels, best_prices, candidate_sizes, compute_prices_at, choose, levels_at,
}
use internship_project_peanu.Strategy.Scorer
use internship_project_peanu.Strategy.Scorer.{SignalScorer, win_rate, last_n, score_history}
use internship_project_peanu.Strategy.Scorer.History.{record_results}
use internship_project_peanu.Strategy.Generator.Emitted.{ResultEmitted, generate-ResultEmitted}
use internship_project_peanu.Strategy.Generator.Cooldown.{Returned, calls, generate_cooldown}

abbrev eth : Token
eth = record { address = record { value = "0xa" }; symbol = "ETH"; decimals = 8 }

abbrev usdc : Token
usdc = record { address = record { value = "0xb" }; symbol = "USDC"; decimals = 8 }

-- Asks at 2000, bids at 1999; the pool buys at 2020 and sells at 2030.
abbrev market : Market
market = record {
  book = record {
    bids = (pos 199_900_000_000, pos 500_000_000) ∷ [];
    asks = (pos 200_000_000_000, pos 500_000_000) ∷ [];
    best_bid = (pos 199_900_000_000, pos 500_000_000);
    best_ask = (pos 200_000_000_000, pos 500_000_000);
    mid_price = pos 199_950_000_000;
  };
  amm_quote = some (λ token_in token_out amount.
      if str_eq token_in.symbol "ETH" then ok (amount *ℤ pos 2_020) else ok (amount /ℤ pos 2_030));
  max_fee_wei = none;
  signal_id = "s1";
  cooldown_check = 10_000;
  gas_check = 10_000;
  gas_fetched = 10_000;
  created = 10_001;
  recorded = 10_002;
}

abbrev generator : SignalGenerator ℤ
generator = record {
  inventory = record { balances = [] };
  fees = record { cex_taker_bps = pos 10; dex_swap_bps = pos 30; gas_cost = pos 1_000 };
  min_spread_bps = pos 50_000;
  trade_size_min = pos 2_000_000_000;
  trade_size_max = pos 2_000_000_000;
  trade_size_steps = 5;
  min_profit = pos 1_000_000;
  max_position = pos 100_000_000_000;
  signal_ttl_ms = 5_000;
  cooldown_ms = 2_000;
  pair_tokens = ("ETH/USDC", (eth, usdc)) ∷ [];
  swap_gas_units = pos 150_000;
  last_signal_time = [];
  last_logged_prices = [];
  gas_cache = none;
}

generate-ResultEmitted_example :
    ResultEmitted milli market "ETH/USDC" generator (generate milli market "ETH/USDC" generator).0
generate-ResultEmitted_example = generate-ResultEmitted milli market "ETH/USDC" generator

returned : Returned milli (generate milli market "ETH/USDC" generator).0
unfolding generate generate_core fetch_prices find_best_prices best_prices candidate_sizes
    compute_prices_at choose evaluate signal_of in_cooldown total_fee get_available Dict.get ◌+ℤ◌
    ◌-ℤ◌ ◌*ℤ◌ ◌/ℤ◌ walk_the_book walk_scaled walk_levels levels_at fetch_live_gas_cost
returned = tt

abbrev soon : Market
soon = record market { cooldown_check = 11_000 }

pair_differs : ◌≢◌ {A = String} "BTC/USDC" "ETH/USDC"
pair_differs same = true≢false (sym (ap (str_eq "ETH/USDC") same))

generate_cooldown_example :
    let later =
      calls milli ((market, "BTC/USDC") ∷ []) (generate milli market "ETH/USDC" generator).1 in
    generate milli soon "ETH/USDC" later ≡ (ok none, later)
generate_cooldown_example =
    generate_cooldown milli market soon "ETH/USDC" generator ((market, "BTC/USDC") ∷ []) returned
      (pair_differs, tt) (ground arith)

abbrev at_size : ℤ → PriceLevels
at_size s = record {
  cex_bid = pos 1;
  cex_ask = pos 2;
  dex_buy_price = pos 3;
  dex_sell_price = pos 4;
  size = s;
}

abbrev computed : ℤ → Result (Option PriceLevels)
computed s = ok (some (at_size s))

abbrev scorer : SignalScorer ℤ
scorer =
    record (Scorer.new milli (record {
      spread_weight = none;
      liquidity_weight = none;
      inventory_weight = none;
      history_weight = none;
      excellent_spread_bps = none;
      min_spread_bps = none;
    })) { recent_results = ("ETH/USDC", true) ∷ [] }

abbrev outcomes : List (String × Bool)
outcomes = ("ETH/USDC", false) ∷ ("BTC/USDC", false) ∷ ("ETH/USDC", true) ∷ []

-- Two of three succeeded.
history_test : score_history milli "ETH/USDC" (record_results outcomes scorer) ≡ pos 66_600
unfolding score_history win_rate Scorer.record_result ◌*ℤ◌ ◌/ℤ◌
history_test = refl
