-- ===== src/Integration/ArbBot/Decide/Cases.antt =====
-- arb_bot.service.ts: the ways a decision ends, for the proofs about them.
use internship_project_peanu.Prelude.{
  ◌≡◌, refl, Bool, true, false, not, ◌&&◌, Option, none, some, String, if◌then◌else◌, if_elim,
}
use internship_project_peanu.Prelude.Int.{ltb_ℤ}
use internship_project_peanu.Prelude.Result.{Result, ok, err}
use internship_project_peanu.Prelude.Double.{Double}
use internship_project_peanu.Exchange.OrderBook.{OrderBook}
use internship_project_peanu.Strategy.Signal.{Signal}
use internship_project_peanu.Safety.Validator.{validate_signal}
use internship_project_peanu.Integration.ArbBot.{Bot, executing, min_profit_buffer}
use internship_project_peanu.Integration.ArbBot.Flight.{
  Flight, DecideAnswers, after_status, finish, trading,
}
use internship_project_peanu.Integration.ArbBot.Decide.{
  is_daily_loss, run_dry_run, validated, decayed_score, screen, screened, asked, after_generate,
  generate_and_filter_signal, risk_check_of, risk_checked, absolute_check, run_risk_checks, proceed,
  decided, decide,
}

-- What holds of a signal that passed everything, in the bot that the tick found.
pub record Cleared {D : Type 0} (f : Double D) (a : DecideAnswers) (pair : String)
    (book : OrderBook) (b : Bot D) (s : Signal D) : Type 0 where
  pub generated : (asked f a pair book b).0 ≡ ok (some s)
  pub valid : (validate_signal f a.validity s b.pre_trade).0.allowed ≡ true
  pub scored : f.lt (decayed_score f a s b) b.config.min_score ≡ false
  pub profitable : ltb_ℤ s.expected_net_pnl (min_profit_buffer s b) ≡ false
  pub within_limits : (risk_check_of f a s b).0.allowed ≡ true
  pub below_ceilings : (absolute_check f a s b).allowed ≡ true

-- For a test on a negation.
not_elim {ℓ κ} :
    {A : Type ℓ} (P : A → Type κ) (b : Bool) {x y : A}
    → (b ≡ false → P x)
    → (b ≡ true → P y)
    → P (if not b then x else y)
not_elim P true h k = k refl
not_elim P false h k = h refl

pub bool_elim {κ} :
    (P : Bool → Type κ) (b : Bool) → (b ≡ true → P true) → (b ≡ false → P false) → P b
bool_elim P true h k = h refl
bool_elim P false h k = k refl

module _ {D : Type 0} (f : Double D) (a : DecideAnswers) (pair : String) (book : OrderBook) where
  abbrev passed : Signal D → Bot D → Bot D
  passed s b = after_status a.status (risk_checked f a s b)

  module _ (P : Bot D × Option (Flight D) → Type 0) (s : Signal D) (b : Bot D) where
    proceed_elim :
        P (finish (risk_checked f a s b), none)
        → P (finish (record (passed s b) { daily_loss_alerted = true }), none)
        → P (finish (passed s b), none)
        → ((risk_check_of f a s b).0.allowed ≡ true
            → (absolute_check f a s b).allowed ≡ true
            → b.config.simulation_mode ≡ true
            → P (finish (run_dry_run a.recorded s (passed s b)), none))
        → ((risk_check_of f a s b).0.allowed ≡ true
            → (absolute_check f a s b).allowed ≡ true
            → b.config.simulation_mode ≡ false
            → P (record (passed s b) { tick_state = executing }, some (trading s pair book)))
        → P (proceed f a s pair book b)
    unfolding proceed run_risk_checks
    proceed_elim refused alerted capped dry live =
        let Q : Bool × Bot D → Type 0 = λ x. P (
          if not x.0
          then (finish x.1, none)
          else if x.1.config.simulation_mode
          then (finish (run_dry_run a.recorded s x.1), none)
          else (record x.1 { tick_state = executing }, some (trading s pair book))) in
        not_elim Q (risk_check_of f a s b).0.allowed
          (λ _.
            if_elim Q (is_daily_loss (risk_check_of f a s b).0.reason && not b.daily_loss_alerted)
              (false, record (passed s b) { daily_loss_alerted = true })
              (false, risk_checked f a s b) (λ _. alerted) (λ _. refused))
          (λ within.
            bool_elim (λ c. Q (c, passed s b)) (absolute_check f a s b).allowed
              (λ below.
                if_elim P b.config.simulation_mode _ _ (dry within below) (live within below))
              (λ above. capped))

  module _ (P : Bot D × Option (Flight D) → Type 0) (b : Bot D) where
    abbrev pub asked_bot : Bot D
    asked_bot = after_generate f a pair book b

    abbrev pub valid_bot : Signal D → Bot D
    valid_bot s = validated f a s asked_bot

    -- The ways a decision ends, and what is known of the signal in each.
    pub record Ends : Type 0 where
      pub quiet : P (finish asked_bot, none)
      pub unfit : (s : Signal D) → P (finish (valid_bot s), none)
      pub refused : (s : Signal D) → P (finish (risk_checked f a s (valid_bot s)), none)
      pub alerted :
          (s : Signal D)
          → P (finish (record (passed s (valid_bot s)) { daily_loss_alerted = true }), none)
      pub capped : (s : Signal D) → P (finish (passed s (valid_bot s)), none)
      pub dry :
          (s : Signal D)
          → Cleared f a pair book b s
          → b.config.simulation_mode ≡ true
          → P (finish (run_dry_run a.recorded s (passed s (valid_bot s))), none)
      pub live :
          (s : Signal D)
          → Cleared f a pair book b s
          → b.config.simulation_mode ≡ false
          → P (
            record (passed s (valid_bot s)) { tick_state = executing },
            some (trading s pair book),
          )

    screen_elim :
        Ends
        → (s : Signal D) → (asked f a pair book b).0 ≡ ok (some s)
        → P (decided f a pair book (let (o, b') = screen f a s asked_bot in (ok o, b')))
    unfolding screen min_profit_buffer
    screen_elim e s generated =
        let Q : Option (Signal D) × Bot D → Type 0 = λ x. P (decided f a pair book (ok x.0, x.1)) in
        not_elim Q (validate_signal f a.validity s b.pre_trade).0.allowed (λ _. e.unfit s)
          (λ valid.
            if_elim Q (f.lt (decayed_score f a s b) b.config.min_score) (none, valid_bot s) _
              (λ _. e.unfit s)
              (λ scored.
                if_elim Q (ltb_ℤ s.expected_net_pnl (min_profit_buffer s b)) (none, valid_bot s)
                  (some s, valid_bot s) (λ _. e.unfit s)
                  (λ profitable.
                    let clear : (risk_check_of f a s b).0.allowed ≡ true
                        → (absolute_check f a s b).allowed ≡ true
                        → Cleared f a pair book b s =
                      λ within below. record {
                        generated = generated;
                        valid = valid;
                        scored = scored;
                        profitable = profitable;
                        within_limits = within;
                        below_ceilings = below;
                      } in
                    proceed_elim P s (valid_bot s) (e.refused s) (e.alerted s) (e.capped s)
                      (λ within below. e.dry s (clear within below))
                      (λ within below. e.live s (clear within below)))))

    generated_elim :
        Ends
        → (r : Result (Option (Signal D))) → (asked f a pair book b).0 ≡ r
        → P (decided f a pair book (screened f a r asked_bot))
    generated_elim e (err x) h = e.quiet
    generated_elim e (ok none) h = e.quiet
    generated_elim e (ok (some s)) h = screen_elim e s h

    pub decide_elim : Ends → P (decide f a pair book b)
    unfolding decide generate_and_filter_signal
    decide_elim e = generated_elim e (asked f a pair book b).0 refl
