-- ===== src/Exchange/Client/Limit.antt =====
-- exchange.client.ts: what the limit on the weight promises.
use internship_project_peanu.Prelude.{
  ℕ, ◌+◌, ◌==◌, ◌≤◌, ◌<◌, ◌≡◌, refl, sym, ap, ◌∙◌, List, [], ◌∷◌, ◌++◌, subst, if_elim, All, arith,
}
use internship_project_peanu.Exchange.Client.{
  RateLimitConfig, WeightEntry, ExchangeClient, Reply, answered, thrown, Times, prune, used,
  sleep_ms, check_weight, record_weight, weighted, after_reply,
}
use internship_project_peanu.Exchange.Client.Weights.{
  windowed, windowed≤used, windowed-append, windowed-prune, used-append, used-prune, prune-All,
  prune-Fresh, after_sleep_fits,
}

pub record Call : Type 0 where
  pub weight : ℕ
  pub times : Times
  pub reply : Reply (Unit {0})

abbrev pub step : Call → ExchangeClient → ExchangeClient
step k c = (weighted k.weight k.times k.reply c).1

abbrev pub run : List Call → ExchangeClient → ExchangeClient
run [] c = c
run (k ∷ ks) c = run ks (step k c)

abbrev pub entry_of : ℕ → Times → WeightEntry
entry_of weight t = record { time = t.answered_at; weight = weight }

abbrev pub recorded : Reply (Unit {0}) → WeightEntry → List WeightEntry
recorded (answered a) e = e ∷ []
recorded (thrown x) e = []

-- The calls that were answered, with their weights and times.
abbrev pub sent : List Call → List WeightEntry
sent [] = []
sent (k ∷ ks) = recorded k.reply (entry_of k.weight k.times) ++ sent ks

-- The clock does not go back, the two readings of a check are less than 50 ms apart, and a sleep
-- lasts as long as was asked.
pub record OnTime (now : ℕ) (k : Call) (c : ExchangeClient) : Type 0 where
  pub started : now ≤ k.times.checked
  pub reading : k.times.checked ≤ k.times.read
  pub close : k.times.read < k.times.checked + 50
  pub slept :
      k.times.read
        + sleep_ms k.weight k.times.read c.rate_limit
            (prune c.rate_limit.window_ms k.times.checked c.weight_log)
      ≤ k.times.woke
  pub replied : k.times.woke ≤ k.times.answered_at

-- The calls are made one after another, each below the limit by itself and with no more weight
-- than a call that is still in the log.
abbrev pub InTurn : ℕ → List Call → ExchangeClient → Type 0
InTurn now [] c = Unit
InTurn now (k ∷ ks) c =
    OnTime now k c
    × (k.weight < c.rate_limit.weight_limit)
    × All (λ e. k.weight ≤ e.weight) c.weight_log
    × InTurn k.times.answered_at ks (step k c)

abbrev pub ended_at : ℕ → List Call → ℕ
ended_at now [] = now
ended_at now (k ∷ ks) = ended_at k.times.answered_at ks

check_weight_fits :
    (now : ℕ) (k : Call) (c : ExchangeClient)
    → OnTime now k c
    → used c.weight_log < c.rate_limit.weight_limit
    → k.weight < c.rate_limit.weight_limit
    → All (λ e. k.weight ≤ e.weight) c.weight_log
    → used (check_weight k.weight k.times c).weight_log + k.weight < c.rate_limit.weight_limit
unfolding check_weight
check_weight_fits now k c on_time room small lighter =
    let r = c.rate_limit in
    let es = prune r.window_ms k.times.checked c.weight_log in
    after_sleep_fits k.weight k.times.checked k.times.read k.times.woke r es
      (omega (arith, used-prune r.window_ms k.times.checked c.weight_log, room)) small
      (prune-All (λ e. k.weight ≤ e.weight) r.window_ms k.times.checked c.weight_log lighter)
      (prune-Fresh r.window_ms k.times.checked c.weight_log) on_time.close on_time.slept

after_reply-room :
    (weight limit now : ℕ) (reply : Reply (Unit {0})) (c : ExchangeClient)
    → used c.weight_log + weight < limit
    → used (after_reply weight now reply c).1.weight_log < limit
unfolding record_weight
after_reply-room weight limit now (thrown e) c room = omega (arith, room)
after_reply-room weight limit now (answered a) c room =
    omega (arith, room, used-append c.weight_log (record { time = now; weight = weight }))

after_reply-windowed :
    (weight now w t : ℕ) (reply : Reply (Unit {0})) (c : ExchangeClient)
    → windowed w t (after_reply weight now reply c).1.weight_log
      ≡ windowed w t c.weight_log
        + windowed w t (recorded reply (record { time = now; weight = weight }))
unfolding record_weight
after_reply-windowed weight now w t (thrown e) c = omega arith
after_reply-windowed weight now w t (answered a) c =
    windowed-append w t c.weight_log (record { time = now; weight = weight } ∷ [])

after_reply-rate_limit :
    (weight now : ℕ) (reply : Reply (Unit {0})) (c : ExchangeClient)
    → (after_reply weight now reply c).1.rate_limit ≡ c.rate_limit
unfolding record_weight
after_reply-rate_limit weight now (thrown e) c = refl
after_reply-rate_limit weight now (answered a) c = refl

check_weight-windowed :
    (t : ℕ) (k : Call) (c : ExchangeClient)
    → k.times.checked ≤ t
    → k.times.woke ≤ t
    → windowed c.rate_limit.window_ms t (check_weight k.weight k.times c).weight_log
      ≡ windowed c.rate_limit.window_ms t c.weight_log
unfolding check_weight
check_weight-windowed t k c checked woke =
    let w = c.rate_limit.window_ms in
    let ready = prune w k.times.checked c.weight_log in
    let first = windowed-prune w k.times.checked t c.weight_log checked in
    if_elim (λ es. windowed w t es ≡ windowed w t c.weight_log)
      (sleep_ms k.weight k.times.read c.rate_limit ready == 0) ready (prune w k.times.woke ready)
      (λ _. first) (λ _. windowed-prune w k.times.woke t ready woke ∙ first)

step-room :
    (now : ℕ) (k : Call) (c : ExchangeClient)
    → OnTime now k c
    → used c.weight_log < c.rate_limit.weight_limit
    → k.weight < c.rate_limit.weight_limit
    → All (λ e. k.weight ≤ e.weight) c.weight_log
    → used (step k c).weight_log < c.rate_limit.weight_limit
unfolding weighted
step-room now k c on_time room small lighter =
    after_reply-room k.weight c.rate_limit.weight_limit k.times.answered_at k.reply
      (check_weight k.weight k.times c) (check_weight_fits now k c on_time room small lighter)

step-rate_limit : (k : Call) (c : ExchangeClient) → (step k c).rate_limit ≡ c.rate_limit
unfolding weighted check_weight
step-rate_limit k c =
    after_reply-rate_limit k.weight k.times.answered_at k.reply (check_weight k.weight k.times c)

step-windowed :
    (t : ℕ) (k : Call) (c : ExchangeClient)
    → k.times.checked ≤ t
    → k.times.woke ≤ t
    → windowed c.rate_limit.window_ms t (step k c).weight_log
      ≡ windowed c.rate_limit.window_ms t c.weight_log
        + windowed c.rate_limit.window_ms t (recorded k.reply (entry_of k.weight k.times))
unfolding weighted
step-windowed t k c checked woke =
    let w = c.rate_limit.window_ms in
    after_reply-windowed k.weight k.times.answered_at w t k.reply (check_weight k.weight k.times c)
    ∙ ap (λ n. n + windowed w t (recorded k.reply (entry_of k.weight k.times)))
        (check_weight-windowed t k c checked woke)

ended_at-bound :
    (now : ℕ) (ks : List Call) (c : ExchangeClient) → InTurn now ks c → now ≤ ended_at now ks
ended_at-bound now [] c h = omega arith
ended_at-bound now (k ∷ ks) c h =
    let later = ended_at-bound k.times.answered_at ks (step k c) h.3 in
    omega (arith, h.0.started, h.0.reading, h.0.slept, h.0.replied, later)

-- The log has all that was recorded in the window, and stays below the limit.
run-log :
    (now t : ℕ) (r : RateLimitConfig) (ks : List Call) (c : ExchangeClient)
    → c.rate_limit ≡ r
    → InTurn now ks c
    → ended_at now ks ≤ t
    → used c.weight_log < r.weight_limit
    → windowed r.window_ms t c.weight_log + windowed r.window_ms t (sent ks) < r.weight_limit
run-log now t r [] c same h ended room =
    omega (arith, room, windowed≤used r.window_ms t c.weight_log)
run-log now t r (k ∷ ks) c same h ended room =
    let (on_time, small, lighter, later) = h in
    let w = r.window_ms in
    let limits = step-rate_limit k c ∙ same in
    let bound = ended_at-bound k.times.answered_at ks (step k c) later in
    let woke : k.times.woke ≤ t = omega (arith, bound, ended, on_time.replied) in
    let checked : k.times.checked ≤ t = omega (arith, woke, on_time.reading, on_time.slept) in
    let room_here : used c.weight_log < c.rate_limit.weight_limit =
      subst (λ x. used c.weight_log < x.weight_limit) (sym same) room in
    let rest = run-log k.times.answered_at t r ks (step k c) limits later ended (
      subst (λ x. used (step k c).weight_log < x.weight_limit) same
        (step-room now k c on_time room_here small lighter)) in
    let here =
      subst
        (λ x.
          windowed x.window_ms t (step k c).weight_log
          ≡ windowed x.window_ms t c.weight_log
            + windowed x.window_ms t (recorded k.reply (entry_of k.weight k.times)))
        same (step-windowed t k c checked woke) in
    omega (
      arith,
      rest,
      here,
      windowed-append w t (recorded k.reply (entry_of k.weight k.times)) (sent ks),
    )

-- For calls that are made one after another by a client that has made none, each below the limit
-- and none heavier than a call still in the log, the weights of the calls that were answered in any
-- window that ends after the last one stay below the limit, if the clock does not go back, reads
-- less than 50 ms apart within a check and a sleep is as long as was asked.
pub sent_below_limit :
    (now t : ℕ) (r : RateLimitConfig) (ks : List Call)
    → InTurn now ks (record { rate_limit = r; weight_log = [] })
    → 0 < r.weight_limit
    → ended_at now ks ≤ t
    → windowed r.window_ms t (sent ks) < r.weight_limit
sent_below_limit now t r ks h positive ended =
    omega
      (arith, run-log now t r ks (record { rate_limit = r; weight_log = [] }) refl h ended positive)
