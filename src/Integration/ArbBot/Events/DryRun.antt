-- ===== src/Integration/ArbBot/Events/DryRun.antt =====
-- arb_bot.service.ts: what a bot in simulation mode does, whatever the order of the events.
use internship_project_peanu.Prelude.{
  ℕ, zero, suc, ◌≡◌, refl, ap, true, Option, none, some, List, [], ◌∷◌, ◌++◌, ◌==◌, String,
  get_elem?, if_elim, All, arith, inl, inr,
}
use internship_project_peanu.Prelude.Int.{ℤ, pos, ◌+ℤ◌, neg, ◌≤ℤ◌, int_laws}
use internship_project_peanu.Prelude.Double.{Double}
use internship_project_peanu.Exchange.OrderBook.{OrderBook}
use internship_project_peanu.Strategy.Signal.{Signal}
use internship_project_peanu.Safety.Risk.{
  RiskManager, prune_trade_window, record_trade, reset_daily, drop_stale, max_by_pct,
  drawdown_exceeded, check_pre_trade,
}
use internship_project_peanu.Safety.Risk.Session.{
  IsContained, WithinLimits, check_pre_trade_iff, check_state, allowed_state, prune-IsContained,
  recorded-IsContained, length-drop_stale,
}
use internship_project_peanu.Integration.ArbBot.{Bot, BotConfig, maybe_daily_reset, sync_balances}
use internship_project_peanu.Integration.ArbBot.Flight.{
  Flight, deciding, trading, settling, GateAnswers, DecideAnswers, Answers, count_trade,
}
use internship_project_peanu.Integration.ArbBot.Gates.{begin_tick}
use internship_project_peanu.Integration.ArbBot.Gates.Cases.{begin_elim}
use internship_project_peanu.Integration.ArbBot.Decide.{decide, run_dry_run}
use internship_project_peanu.Integration.ArbBot.Decide.Cases.{decide_elim}
use internship_project_peanu.Integration.ArbBot.Events.{
  Event, book_update, tick, resume, sync, daily_check, stop_command, stop_message, panel_sent,
  System, put_back, resumed, started, handle, run,
}

-- Simulation mode, limits that are not negative, the risk manager within them, and its figure of
-- the day the same as the bot's own.
pub record Simulated {D : Type 0} (f : Double D) (c : BotConfig D) (m : RiskManager D) (net : ℤ)
    : Type 0 where
  pub simulation : c.simulation_mode ≡ true
  pub daily_limit : pos 0 ≤ℤ m.limits.max_daily_loss
  pub trade_limit : pos 0 ≤ℤ m.limits.max_loss_per_trade
  pub contained : IsContained f m.limits.max_loss_per_trade m
  pub same_day : net ≡ m.daily_pnl

module _ {D : Type 0} where
  abbrev pub IsDeciding : Flight D → Type 0
  IsDeciding (deciding pair book) = Unit
  IsDeciding (trading s pair book) = ⊥
  IsDeciding (settling pair expected) = ⊥

  put_back-IsDeciding :
      (i : ℕ) (xs : List (Flight D)) → All IsDeciding xs → All IsDeciding (put_back i none xs)
  put_back-IsDeciding i [] h = tt
  put_back-IsDeciding zero (x ∷ xs) h = h.1
  put_back-IsDeciding (suc i) (x ∷ xs) h = (h.0, put_back-IsDeciding i xs h.1)

  abbrev pub Awaits : Option (Flight D) → Type 0
  Awaits none = Unit
  Awaits (some x) = IsDeciding x

  get_elem-Awaits : (i : ℕ) (xs : List (Flight D)) → All IsDeciding xs → Awaits (get_elem? xs i)
  get_elem-Awaits i [] h = tt
  get_elem-Awaits zero (x ∷ xs) h = h.0
  get_elem-Awaits (suc i) (x ∷ xs) h = get_elem-Awaits i xs h.1

  add-IsDeciding :
      (pair : String) (book : OrderBook) (xs : List (Flight D))
      → All IsDeciding xs
      → All IsDeciding (xs ++ deciding pair book ∷ [])
  add-IsDeciding pair book [] h = (tt, tt)
  add-IsDeciding pair book (x ∷ xs) h = (h.0, add-IsDeciding pair book xs h.1)

module _ {D : Type 0} (f : Double D) where
  abbrev pub IsSimulated : Bot D → Type 0
  IsSimulated b = Simulated f b.config b.risk_manager b.daily_net_pnl

  -- No tick is further than its decision, and nothing was sent to a venue.
  pub record IsDryRun (s : System D) : Type 0 where
    pub bot : IsSimulated s.bot
    pub deciding_only : All IsDeciding s.flights
    pub unsent : s.sent ≡ []

  pruned-Simulated :
      {c : BotConfig D} {net : ℤ} (now : ℕ) (m : RiskManager D)
      → Simulated f c m net
      → Simulated f c (prune_trade_window now m) net
  unfolding prune_trade_window
  pruned-Simulated now m h = record {
    simulation = h.simulation;
    daily_limit = h.daily_limit;
    trade_limit = h.trade_limit;
    contained = prune-IsContained f m.limits.max_loss_per_trade now m h.contained;
    same_day = h.same_day;
  }

  reset-Simulated :
      {c : BotConfig D} {net : ℤ} (m : RiskManager D)
      → Simulated f c m net
      → Simulated f c (reset_daily m) (pos 0)
  unfolding reset_daily
  reset-Simulated m h = record {
    simulation = h.simulation;
    daily_limit = h.daily_limit;
    trade_limit = h.trade_limit;
    contained = record {
      daily = omega (int_laws, h.daily_limit, h.trade_limit);
      streak = omega arith;
      hourly = h.contained.hourly;
      peak = h.contained.peak;
    };
    same_day = refl;
  }

  -- The limits that a check found still hold once the window is pruned.
  pruned-WithinLimits :
      (now later : ℕ) (s : Signal D) (m : RiskManager D)
      → WithinLimits f now s m
      → WithinLimits f later s (prune_trade_window now m)
  unfolding prune_trade_window max_by_pct drawdown_exceeded
  pruned-WithinLimits now later s m w = record {
    trade = w.trade;
    share = w.share;
    loss = w.loss;
    daily = w.daily;
    drawdown = w.drawdown;
    streak = w.streak;
    hourly = omega (arith, w.hourly, length-drop_stale later (drop_stale now m.trade_timestamps));
  }

  checked-Simulated :
      {c : BotConfig D} {net : ℤ} (now : ℕ) (s : Signal D) (m : RiskManager D)
      → Simulated f c m net
      → Simulated f c (check_pre_trade f now s m).1 net
  checked-Simulated now s m h = elim (check_state f now s m) [
    | inl same ↦ rw same h
    | inr pruned ↦ rw pruned (pruned-Simulated now m h)
  ]

  -- The loss that a trade within the limits expects.
  expected_loss :
      (now : ℕ) (s : Signal D) (m : RiskManager D)
      → WithinLimits f now s m
      → pos 0 ≤ℤ m.limits.max_loss_per_trade
      → neg m.limits.max_loss_per_trade ≤ℤ s.expected_net_pnl
  expected_loss now s m w h = elim w.loss [
    | inl bounded ↦ bounded
    | inr gain ↦ omega (int_laws, gain, h)
  ]

  -- A dry run that was checked keeps the risk manager within its limits.
  recorded-Simulated :
      {c : BotConfig D} {net : ℤ} (now later done : ℕ) (s : Signal D) (m : RiskManager D)
      → (check_pre_trade f now s m).0.allowed ≡ true
      → Simulated f c m net
      → Simulated f c
          (record_trade done s.expected_net_pnl
            (prune_trade_window later (check_pre_trade f now s m).1))
          (net +ℤ s.expected_net_pnl)
  unfolding record_trade prune_trade_window
  recorded-Simulated now later done s m h sim =
      let w = (check_pre_trade_iff f now s m).0 h in
      rw (allowed_state f now s m h) record {
        simulation = sim.simulation;
        daily_limit = sim.daily_limit;
        trade_limit = sim.trade_limit;
        contained =
            recorded-IsContained f m.limits.max_loss_per_trade later done s s.expected_net_pnl
              (prune_trade_window now m) (pruned-WithinLimits now later s m w)
              (expected_loss now s m w sim.trade_limit)
              (prune-IsContained f m.limits.max_loss_per_trade now m sim.contained);
        same_day = ap (λ n. n +ℤ s.expected_net_pnl) sim.same_day;
      }

  -- A decision in simulation mode ends the tick.
  decide-Simulated :
      (a : DecideAnswers) (pair : String) (book : OrderBook) (b : Bot D)
      → IsSimulated b
      → IsSimulated (decide f a pair book b).0 × ((decide f a pair book b).1 ≡ none)
  unfolding run_dry_run count_trade
  decide-Simulated a pair book b h =
      decide_elim f a pair book (λ x. IsSimulated x.0 × (x.1 ≡ none)) b
        record {
          quiet = (h, refl);
          unfit = λ s. (h, refl);
          refused = λ s. (checked-Simulated a.risk_check s b.risk_manager h, refl);
          alerted = λ s. (
            pruned-Simulated a.status _ (checked-Simulated a.risk_check s b.risk_manager h),
            refl,
          );
          capped = λ s. (
            pruned-Simulated a.status _ (checked-Simulated a.risk_check s b.risk_manager h),
            refl,
          );
          dry = λ s c sim. (
            recorded-Simulated a.risk_check a.status a.recorded s b.risk_manager c.within_limits h,
            refl,
          );
          live = λ s c real. cc (h.simulation, real);
        }

  resumed-IsDryRun :
      (i : ℕ) (a : Answers D) (o : Option (Flight D)) (s : System D)
      → Awaits o
      → IsDryRun s
      → IsDryRun (resumed f i a o s)
  resumed-IsDryRun i a none s x h = h
  resumed-IsDryRun i a (some (trading signal pair book)) s x h = absurd x
  resumed-IsDryRun i a (some (settling pair expected)) s x h = absurd x
  resumed-IsDryRun i a (some (deciding pair book)) s x h =
      let (bot, ended) = decide-Simulated a.decide pair book s.bot h.bot in
      record {
        bot = bot;
        deciding_only = rw ended (put_back-IsDeciding i s.flights h.deciding_only);
        unsent = rw (h.unsent, ◌++◌) refl;
      }

  started-IsDryRun :
      (pair : String) (book : OrderBook) (a : GateAnswers) (s : System D)
      → IsDryRun s
      → IsDryRun (started f (deciding pair book) (begin_tick f a s.bot) s)
  started-IsDryRun pair book a s h =
      let gated = pruned-Simulated a.status s.bot.risk_manager h.bot in
      begin_elim f a s.bot (λ x. IsDryRun (started f (deciding pair book) x s))
        (record { bot = h.bot; deciding_only = h.deciding_only; unsent = h.unsent })
        (record { bot = gated; deciding_only = h.deciding_only; unsent = h.unsent })
        (record { bot = gated; deciding_only = h.deciding_only; unsent = h.unsent })
        (λ quiet calm free. record {
          bot = gated;
          deciding_only = add-IsDeciding pair book s.flights h.deciding_only;
          unsent = h.unsent;
        })

  -- An event that leaves the ticks and the requests alone, and the bot in simulation mode.
  bot_only :
      (b : Bot D) (s : System D) → IsSimulated b → IsDryRun s → IsDryRun (record s { bot = b })
  bot_only b s bot h = record { bot = bot; deciding_only = h.deciding_only; unsent = h.unsent }

  handle-IsDryRun : (e : Event D) (s : System D) → IsDryRun s → IsDryRun (handle f e s)
  unfolding handle sync_balances maybe_daily_reset
  handle-IsDryRun (book_update pair book) s h = bot_only _ s h.bot h
  handle-IsDryRun (tick pair book a) s h = started-IsDryRun pair book a s h
  handle-IsDryRun (resume i a) s h =
      resumed-IsDryRun i a _ s (get_elem-Awaits i s.flights h.deciding_only) h
  handle-IsDryRun (sync a) s h = bot_only _ s h.bot h
  handle-IsDryRun (daily_check now today) s h =
      if_elim {A = Bot D} (λ b. IsDryRun (record s { bot = b })) (today == s.bot.last_reset_day) _ _
        (λ _. bot_only _ s h.bot h)
        (λ _. bot_only _ s (reset-Simulated _ (pruned-Simulated now s.bot.risk_manager h.bot)) h)
  handle-IsDryRun stop_command s h = bot_only _ s h.bot h
  handle-IsDryRun stop_message s h = bot_only _ s h.bot h
  handle-IsDryRun panel_sent s h = bot_only _ s h.bot h

  -- In simulation mode, whatever the events and their order: nothing is sent to a venue, the risk
  -- manager's figure of the day is the bot's own, and the risk manager stays within its limits: the
  -- day's loss at most the limit and one largest loss, the losing streak and the trades on record
  -- at most their limits.
  pub run-IsDryRun : (es : List (Event D)) (s : System D) → IsDryRun s → IsDryRun (run f es s)
  unfolding run
  run-IsDryRun [] s h = h
  run-IsDryRun (e ∷ es) s h = run-IsDryRun es (handle f e s) (handle-IsDryRun e s h)
