-- ===== src/Integration/ArbBot/Decide/Guarded.antt =====
-- arb_bot.service.ts: what has been checked of a signal when a tick goes on to trading it.
use internship_project_peanu.Prelude.{◌≡◌, true, false, Option, none, some, String}
use internship_project_peanu.Prelude.Int.{pos, ◌≤ℤ◌}
use internship_project_peanu.Prelude.Result.{ok}
use internship_project_peanu.Prelude.Double.{Double}
use internship_project_peanu.Exchange.OrderBook.{OrderBook}
use internship_project_peanu.Strategy.Signal.{Signal}
use internship_project_peanu.Safety.Risk.{trade_value}
use internship_project_peanu.Safety.Risk.Session.{WithinLimits}
use internship_project_peanu.Safety.Validator.{validate_signal}
use internship_project_peanu.Integration.ArbBot.{Bot, min_profit_buffer}
use internship_project_peanu.Integration.ArbBot.Flight.{
  Flight, deciding, trading, settling, DecideAnswers, through_usd,
}
use internship_project_peanu.Integration.ArbBot.Decide.{asked, decayed_score}

module _ {D : Type 0} (f : Double D) (a : DecideAnswers) (pair : String) (book : OrderBook)
    (b : Bot D) where
  -- What the code promises of a signal before it trades it.
  pub record IsGuarded (s : Signal D) : Type 0 where
    pub generated : (asked f a pair book b).0 ≡ ok (some s)
    pub valid : (validate_signal f a.validity s b.pre_trade).0.allowed ≡ true
    pub scored : f.lt (decayed_score f a s b) b.config.min_score ≡ false
    pub profitable : min_profit_buffer s b ≤ℤ s.expected_net_pnl
    pub limits : WithinLimits f a.risk_check s b.risk_manager
    pub value : trade_value s ≤ℤ pos 2_500_000_000
    pub capital : pos 4_000_000_000 ≤ℤ through_usd f b.risk_manager.current_capital

  -- What a tick may wait for after its decision: nothing, or a trade outside simulation mode of a
  -- guarded signal.
  abbrev pub Decided : Option (Flight D) → Type 0
  Decided none = Unit
  Decided (some (trading s p k)) = IsGuarded s × (b.config.simulation_mode ≡ false)
  Decided (some (deciding p k)) = ⊥
  Decided (some (settling p e)) = ⊥
