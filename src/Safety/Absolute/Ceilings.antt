-- ===== src/Safety/Absolute/Ceilings.antt =====
-- safety.constants.ts against risk.constants.ts: the production limits lie under the ceilings.
use internship_project_peanu.Prelude.{ℕ, ◌<◌, ◌≡◌, true, if◌then◌else◌, arith, length, ◌↔◌, subst}
use internship_project_peanu.Prelude.Int.{ℤ, pos, negsuc, neg, ◌*ℤ◌, ltb_ℤ, ◌≤ℤ◌, ◌<ℤ◌}
use internship_project_peanu.Prelude.Double.{Double}
use internship_project_peanu.Strategy.Signal.{Signal}
use internship_project_peanu.Safety.Check.{allow, refuse, below_absolute_min_capital}
use internship_project_peanu.Safety.Risk.{
  RiskManager, default_risk_limits, trade_value, prune_trade_window, check_pre_trade,
}
use internship_project_peanu.Safety.Risk.Session.{check_pre_trade_iff}
use internship_project_peanu.Safety.Absolute.{absolute_min_capital, absolute_safety_check}

under_ceilings :
    (value loss capital : ℤ) (trades : ℕ)
    → value ≤ℤ pos 2_000_000_000
    → neg (pos 1_500_000_000) <ℤ loss
    → trades < 20
    → absolute_safety_check value loss capital trades
      ≡ (if ltb_ℤ capital absolute_min_capital then refuse below_absolute_min_capital else allow)
unfolding absolute_safety_check neg
under_ceilings value loss capital trades v l t = ground arith

module _ {D : Type 0} (f : Double D) where
  -- Under the production limits, a trade that the risk manager allows can fail the absolute check
  -- for nothing but too little capital.
  pub absolute_safety_check-allowed :
      (now : ℕ) (s : Signal D) (m : RiskManager D) (capital : ℤ)
      → m.limits ≡ default_risk_limits f
      → (check_pre_trade f now s m).0.allowed ≡ true
      → absolute_safety_check
          (trade_value s)
          m.daily_pnl
          capital
          (length (prune_trade_window now m).trade_timestamps)
        ≡ (if ltb_ℤ capital absolute_min_capital then refuse below_absolute_min_capital else allow)
  unfolding default_risk_limits prune_trade_window ◌*ℤ◌
  absolute_safety_check-allowed now s m capital production h =
      let w = (check_pre_trade_iff f now s m).0 h in
      under_ceilings (trade_value s) m.daily_pnl capital _
        (subst (λ l. trade_value s ≤ℤ l.max_trade_usd) production w.trade)
        (subst (λ l. neg l.max_daily_loss <ℤ m.daily_pnl) production w.daily)
        (subst (λ l. length (prune_trade_window now m).trade_timestamps < l.max_trades_per_hour)
          production w.hourly)

-- The absolute check allows exactly the trades of at most 25 dollars, with less than 20 dollars
-- lost on the day, at least 40 dollars of capital and fewer than 30 trades in the hour.
pub absolute_safety_check_iff :
    (value loss capital : ℤ) (trades : ℕ)
    → ((absolute_safety_check value loss capital trades).allowed ≡ true) ↔ (
        (value ≤ℤ pos 2_500_000_000)
        × (negsuc 1_999_999_999 <ℤ loss)
        × (pos 4_000_000_000 ≤ℤ capital)
        × (trades < 30))
unfolding absolute_safety_check neg
absolute_safety_check_iff value loss capital trades = (λ h. ground arith, λ h. ground arith)
