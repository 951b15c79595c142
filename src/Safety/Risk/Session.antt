-- ===== src/Safety/Risk/Session.antt =====
-- risk.service.ts: what the limits guarantee over a session of checked trades.
use internship_project_peanu.Prelude.{
  ℕ, ◌+◌, ◌≤◌, ◌<◌, ◌≡◌, refl, true, false, List, [], ◌∷◌, leb, ◌&&◌, if◌then◌else◌, length,
  length-append, All, arith, Bool-cases, ◌⊎◌, ◌↔◌, inl, inr,
}
use internship_project_peanu.Prelude.Int.{
  ℤ, pos, ◌+ℤ◌, ◌-ℤ◌, neg, ltb_ℤ, ◌≤ℤ◌, ◌<ℤ◌, int_laws, le→not_ltb, lt→not_leb,
}
use internship_project_peanu.Prelude.Double.{Double}
use internship_project_peanu.Strategy.Signal.{Signal}
use internship_project_peanu.Safety.Risk.{
  RiskManager, drop_stale, trade_value, prune_trade_window, record_trade, max_by_pct,
  drawdown_exceeded, check_pre_trade,
}

pub length-drop_stale : (now : ℕ) (ts : List ℕ) → length (drop_stale now ts) ≤ length ts
unfolding drop_stale
length-drop_stale now [] = omega arith
length-drop_stale now (t ∷ ts) = ground (arith, length-drop_stale now ts)

daily_step :
    (worst pnl day limit : ℤ)
    → neg limit <ℤ day
    → neg worst ≤ℤ pnl
    → neg limit -ℤ worst ≤ℤ day +ℤ pnl
daily_step worst pnl day limit h b = omega int_laws

streak_step :
    (pnl : ℤ) (losses limit : ℕ)
    → losses < limit
    → (if ltb_ℤ pnl (pos 0) then losses + 1 else 0) ≤ limit
streak_step pnl losses limit h = ground arith

peak_step : (current peak : ℤ) → current ≤ℤ (if ltb_ℤ peak current then current else peak)
peak_step current peak = ground arith

loss_allowed :
    (net limit : ℤ)
    → (neg limit ≤ℤ net) ⊎ (pos 0 ≤ℤ net)
    → (ltb_ℤ net (pos 0) && ltb_ℤ limit (neg net)) ≡ false
unfolding neg
loss_allowed net limit h = ground arith

lt→not_leb_ℕ : (a b : ℕ) → b < a → leb a b ≡ false
lt→not_leb_ℕ a b h = ground arith

module _ {D : Type 0} (f : Double D) where
  -- Every limit that the check enforces, as conditions on the manager and the signal.
  pub record WithinLimits (now : ℕ) (s : Signal D) (m : RiskManager D) : Type 0 where
    pub trade : trade_value s ≤ℤ m.limits.max_trade_usd
    pub share : trade_value s ≤ℤ max_by_pct f m
    pub loss : neg m.limits.max_loss_per_trade ≤ℤ s.expected_net_pnl ⊎ (pos 0 ≤ℤ s.expected_net_pnl)
    pub daily : neg m.limits.max_daily_loss <ℤ m.daily_pnl
    pub drawdown : drawdown_exceeded f m ≡ false
    pub streak : m.consecutive_losses < m.limits.consecutive_loss_limit
    pub hourly : length (drop_stale now m.trade_timestamps) < m.limits.max_trades_per_hour

  allowed_facts :
      (now : ℕ) (s : Signal D) (m : RiskManager D)
      → (check_pre_trade f now s m).0.allowed ≡ true
      → WithinLimits now s m
  unfolding check_pre_trade neg
  allowed_facts now s m h = ground arith

  within_allowed :
      (now : ℕ) (s : Signal D) (m : RiskManager D)
      → WithinLimits now s m
      → (check_pre_trade f now s m).0.allowed ≡ true
  unfolding check_pre_trade
  within_allowed now s m h =
      rw
        (
          le→not_ltb m.limits.max_trade_usd (trade_value s) h.trade,
          le→not_ltb (max_by_pct f m) (trade_value s) h.share,
          loss_allowed s.expected_net_pnl m.limits.max_loss_per_trade h.loss,
          lt→not_leb m.daily_pnl (neg m.limits.max_daily_loss) h.daily,
          h.drawdown,
          lt→not_leb_ℕ m.limits.consecutive_loss_limit m.consecutive_losses h.streak,
          lt→not_leb_ℕ m.limits.max_trades_per_hour _ h.hourly,
        )
        refl

  -- A trade is allowed exactly when it keeps every limit: its value is at most the largest trade
  -- and the share of the capital, its expected loss at most the loss per trade, and before it the
  -- day's loss, the drawdown, the losing streak and the trades of the last hour are each short of
  -- their limit.
  pub check_pre_trade_iff :
      (now : ℕ) (s : Signal D) (m : RiskManager D)
      → ((check_pre_trade f now s m).0.allowed ≡ true) ↔ WithinLimits now s m
  check_pre_trade_iff now s m = (allowed_facts now s m, within_allowed now s m)

  -- A check changes nothing but the window of trades, and only shortens it.
  pub check_state :
      (now : ℕ) (s : Signal D) (m : RiskManager D)
      → let m' = (check_pre_trade f now s m).1 in (m' ≡ m) ⊎ (m' ≡ prune_trade_window now m)
  unfolding check_pre_trade
  check_state now s m = ground arith

  pub allowed_state :
      (now : ℕ) (s : Signal D) (m : RiskManager D)
      → (check_pre_trade f now s m).0.allowed ≡ true
      → (check_pre_trade f now s m).1 ≡ prune_trade_window now m
  unfolding check_pre_trade
  allowed_state now s m h = ground arith

  -- A trade that the bot attempts: when it is checked, and when and with what result it is
  -- recorded if the check allows it.
  pub record Attempt : Type 0 where
    pub now : ℕ
    pub signal : Signal D
    pub done : ℕ
    pub pnl : ℤ

  abbrev pub attempt : Attempt → RiskManager D → RiskManager D
  attempt a m =
      let (r, m') = check_pre_trade f a.now a.signal m in
      if r.allowed then record_trade a.done a.pnl m' else m'

  abbrev pub session : List Attempt → RiskManager D → RiskManager D
  session [] m = m
  session (a ∷ rest) m = session rest (attempt a m)

  -- No trade of the session loses more than `worst`.
  abbrev pub Bounded : ℤ → Attempt → Type 0
  Bounded worst a = neg worst ≤ℤ a.pnl

  -- The day's loss is at most the limit and one worst trade, the losing streak and the trades on
  -- record are at most their limits, and the capital is at most its peak.
  pub record IsContained (worst : ℤ) (m : RiskManager D) : Type 0 where
    pub daily : neg m.limits.max_daily_loss -ℤ worst ≤ℤ m.daily_pnl
    pub streak : m.consecutive_losses ≤ m.limits.consecutive_loss_limit
    pub hourly : length m.trade_timestamps ≤ m.limits.max_trades_per_hour
    pub peak : m.current_capital ≤ℤ m.peak_capital

  pub prune-IsContained :
      (worst : ℤ) (now : ℕ) (m : RiskManager D)
      → IsContained worst m
      → IsContained worst (prune_trade_window now m)
  unfolding prune_trade_window
  prune-IsContained worst now m h = ground (arith, length-drop_stale now m.trade_timestamps)

  pub recorded-IsContained :
      (worst : ℤ) (now done : ℕ) (s : Signal D) (pnl : ℤ) (m : RiskManager D)
      → WithinLimits now s m
      → neg worst ≤ℤ pnl
      → IsContained worst m
      → IsContained worst (record_trade done pnl (prune_trade_window now m))
  unfolding record_trade prune_trade_window
  recorded-IsContained worst now done s pnl m w b h = record {
    daily = daily_step worst pnl m.daily_pnl m.limits.max_daily_loss w.daily b;
    streak = streak_step pnl m.consecutive_losses m.limits.consecutive_loss_limit w.streak;
    hourly = omega (arith, w.hourly, length-append (drop_stale now m.trade_timestamps) (done ∷ []));
    peak = peak_step (m.current_capital +ℤ pnl) m.peak_capital;
  }

  attempt-IsContained :
      (worst : ℤ) (a : Attempt) (m : RiskManager D)
      → Bounded worst a
      → IsContained worst m
      → IsContained worst (attempt a m)
  attempt-IsContained worst a m b h =
      elim (Bool-cases (check_pre_trade f a.now a.signal m).0.allowed) [
        | inl accepted ↦
            rw (accepted, allowed_state a.now a.signal m accepted)
              (recorded-IsContained worst a.now a.done a.signal a.pnl m
                (allowed_facts a.now a.signal m accepted) b h)
        | inr refused ↦ rw refused (elim (check_state a.now a.signal m) [
          | inl same ↦ rw same h
          | inr pruned ↦ rw pruned (prune-IsContained worst a.now m h)
        ])
      ]

  -- Over any session in which each allowed trade loses at most `worst`: the day's loss never
  -- passes the daily limit by more than one such trade, the losing streak and the trades on record
  -- never pass their limits, and the capital never passes the recorded peak.
  pub session-IsContained :
      (worst : ℤ) (attempts : List Attempt) (m : RiskManager D)
      → All (Bounded worst) attempts
      → IsContained worst m
      → IsContained worst (session attempts m)
  session-IsContained worst [] m b h = h
  session-IsContained worst (a ∷ rest) m b h =
      session-IsContained worst rest (attempt a m) b.1 (attempt-IsContained worst a m b.0 h)
