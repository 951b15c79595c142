-- ===== src/Safety/Tests.antt =====
-- The theorems of safety/ on concrete states; the fractions are numbers of three decimals.
use internship_project_peanu.Prelude.{◌≡◌, refl, true, false, none, List, [], ◌∷◌, arith}
use internship_project_peanu.Prelude.Int.{ℤ, pos, negsuc, ◌*ℤ◌, ◌/ℤ◌, ◌+ℤ◌, ◌-ℤ◌, neg}
use internship_project_peanu.Prelude.Dict
use internship_project_peanu.Prelude.Double.{milli}
use internship_project_peanu.Strategy.Signal.{Signal, buy_cex_sell_dex}
use internship_project_peanu.Safety.Risk.{
  RiskManager, default_risk_limits, check_pre_trade, trade_value, max_by_pct, drawdown_exceeded,
  drop_stale as drop_old_trades,
}
use internship_project_peanu.Safety.Risk.Session.{
  IsContained, Attempt, session, session-IsContained,
}
use internship_project_peanu.Safety.KillSwitch.{AutoKillSwitch, KillSwitchCache, check}
use internship_project_peanu.Safety.KillSwitch.Latch.{error_at, check_at, run, check_latched}
use internship_project_peanu.Safety.Validator.{PreTradeValidator}
use internship_project_peanu.Safety.Validator.History.{IsTrimmed}

-- A trade of 0.005 ETH at 2000 dollars.
abbrev signal : Signal ℤ
signal = record {
  signal_id = "s1";
  pair = "ETH/USDC";
  direction = buy_cex_sell_dex;
  cex_price = pos 200_000_000_000;
  dex_price = pos 202_000_000_000;
  spread_bps = pos 100_000;
  size = pos 500_000;
  expected_gross_pnl = pos 10_000_000;
  expected_fees = pos 1_000_000;
  expected_net_pnl = pos 9_000_000;
  score = pos 80_000;
  timestamp = 1_000;
  expiry = 6_000;
  inventory_ok = true;
  within_limits = true;
}

abbrev manager : RiskManager ℤ
manager = record {
  limits = default_risk_limits milli;
  peak_capital = pos 10_000_000_000;
  current_capital = pos 10_000_000_000;
  daily_pnl = pos 0;
  consecutive_losses = 0;
  trade_timestamps = [];
}

allowed : (check_pre_trade milli 2_000 signal manager).0.allowed ≡ true
unfolding check_pre_trade default_risk_limits trade_value ◌*ℤ◌ ◌/ℤ◌ ◌+ℤ◌ ◌-ℤ◌ neg max_by_pct
    drawdown_exceeded drop_old_trades
allowed = refl

abbrev attempts : List (Attempt milli)
attempts =
    record { now = 2_000; signal = signal; done = 2_500; pnl = negsuc 99_999_999 }
    ∷ record { now = 3_000; signal = signal; done = 3_500; pnl = pos 9_000_000 }
    ∷ []

manager-IsContained : IsContained milli (pos 500_000_000) manager
unfolding default_risk_limits ◌*ℤ◌ ◌-ℤ◌ neg
manager-IsContained = record {
  daily = ground arith;
  streak = ground arith;
  hourly = ground arith;
  peak = ground arith;
}

bounded_neg : neg (pos 500_000_000) ≡ negsuc 499_999_999
unfolding neg
bounded_neg = refl

session-IsContained_example : IsContained milli (pos 500_000_000) (session milli attempts manager)
session-IsContained_example =
    session-IsContained milli (pos 500_000_000) attempts manager
      (rw bounded_neg (ground arith), (rw bounded_neg (ground arith), tt)) manager-IsContained

abbrev switch : AutoKillSwitch
switch = record { triggered = false; trigger_reason = none; error_timestamps = [] }

capital_halved : (check 1_000 (pos 40) (pos 100) switch).0 ≡ true
unfolding check ◌*ℤ◌ ◌/ℤ◌
capital_halved = refl

check_latched_example :
    (check 9_000 (pos 100) (pos 100) (
      run
        (error_at 2_000 ∷ check_at 3_000 (pos 90) (pos 100) ∷ [])
        (check 1_000 (pos 40) (pos 100) switch).1)).0
    ≡ true
check_latched_example =
    check_latched switch 1_000 9_000 (pos 40) (pos 100) (pos 100) (pos 100)
      (error_at 2_000 ∷ check_at 3_000 (pos 90) (pos 100) ∷ []) capital_halved

abbrev cache : KillSwitchCache
cache = record { active = false; checked_at = 500 }

abbrev validator : PreTradeValidator ℤ
validator = record {
  max_spread_bps = pos 500_000;
  max_signal_age_s = pos 5_000;
  max_price_deviation = pos 50;
  price_history_size = 20;
  price_history = ("ETH/USDC", pos 200_000_000_000 ∷ []) ∷ [];
}

abbrev empty : PreTradeValidator ℤ
empty = record validator { price_history = [] }

empty-IsTrimmed : IsTrimmed empty
unfolding Dict.get
empty-IsTrimmed = record { at_pair = λ pair. ground arith }
