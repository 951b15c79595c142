-- ===== src/Executor/Engine/Run/Once.antt =====
-- engine.service.ts: what must hold before anything is sent, and that a signal is executed once.
use internship_project_peanu.Prelude.{
  ℕ, ◌+◌, ◌≤◌, ◌<◌, ◌≡◌, ◌≢◌, refl, true, false, some, List, [], ◌∷◌, ◌++◌, String, ltb, lt→ltb,
  All, ◌⊎◌, inl, inr, ap, ◌∙◌, sym, arith, if◌then◌else◌,
}
use internship_project_peanu.Prelude.Int.{◌*ℤ◌, ◌/ℤ◌, ◌≤ℤ◌}
use internship_project_peanu.Prelude.Result.{Result, ok, err}
use internship_project_peanu.Prelude.Double.{Double}
use internship_project_peanu.Prelude.Dict
use internship_project_peanu.Core.{price_scale}
use internship_project_peanu.Strategy.Signal.{Signal, is_valid, is_buy_dex}
use internship_project_peanu.Inventory.Tracker.{Venue, binance, wallet, get_available}
use internship_project_peanu.Inventory.Tracker.Trades.{can_execute_iff}
use internship_project_peanu.Executor.CircuitBreaker.{is_open}
use internship_project_peanu.Executor.Replay.{ReplayProtection, is_duplicate, mark_executed}
use internship_project_peanu.Executor.Replay.Window
use internship_project_peanu.Executor.Replay.Window.{is_duplicate_exact}
use internship_project_peanu.Executor.Engine.Context.{
  Executor, ExecutionContext, LegVenue, Clients, Clock, Request, make_context, fail, split_pair,
}
use internship_project_peanu.Executor.Engine.Run.{
  Execution, inventory_check, execute, settled, replay_checked,
}
use internship_project_peanu.Executor.Engine.Run.Cases.{ran, execute_elim}

module _ {D : Type 0} where
  abbrev pub quote_venue : Signal D → Venue
  quote_venue s = if is_buy_dex s.direction then wallet else binance

  abbrev pub base_venue : Signal D → Venue
  base_venue s = if is_buy_dex s.direction then binance else wallet

  -- Nothing is sent and no balance changes.
  abbrev pub Untouched : Executor → Execution D → Type 0
  Untouched e x = (x.sent ≡ []) × (x.executor.inventory ≡ e.inventory)

  -- The conditions for an execution to go on to its legs.
  pub record MayRun (clock : Clock) (e : Executor) (s : Signal D) : Type 0 where
    pub closed : (is_open clock.breaker_check e.circuit_breaker).0 ≡ false
    pub fresh : (is_duplicate clock.duplicate_check s.signal_id e.replay_protection).0 ≡ false
    pub valid : is_valid clock.validity_check s ≡ true
    pub quote :
        (s.size *ℤ s.cex_price) /ℤ price_scale
        ≤ℤ get_available (quote_venue s) (split_pair s.pair).1 e.inventory
    pub base : s.size ≤ℤ get_available (base_venue s) (split_pair s.pair).0 e.inventory

module _ {D : Type 0} (f : Double D) (c : Clients D) (clock : Clock) where
  covered :
      (e : Executor) (s : Signal D)
      → (inventory_check f c clock e s).can_execute ≡ true
      → ((s.size *ℤ s.cex_price) /ℤ price_scale
          ≤ℤ get_available (quote_venue s) (split_pair s.pair).1 e.inventory)
        × (s.size ≤ℤ get_available (base_venue s) (split_pair s.pair).0 e.inventory)
  unfolding inventory_check
  covered e s h = (can_execute_iff _ _ _ _ _ _ e.inventory).0.0 h

  -- An execution sends nothing and changes no balance, unless the breaker is closed, the signal is
  -- no duplicate and valid, and the balances cover the quote amount at the buying venue and the
  -- size at the selling one.
  pub execute_guards :
      (e : Executor) (s : Signal D) → Untouched e (execute f c clock e s) ⊎ MayRun clock e s
  execute_guards e s =
      execute_elim f c clock e s (λ x. Untouched e x ⊎ MayRun clock e s) (λ _. inl (refl, refl))
        (λ _ _. inl (refl, refl)) (λ _ _ _. inl (refl, refl))
        (λ closed fresh valid can.
          let (quote, base) = covered e s can in
          inr
            (record { closed = closed; fresh = fresh; valid = valid; quote = quote; base = base }))

  -- A signal that is a duplicate leaves everything untouched.
  duplicate_Untouched :
      (e : Executor) (s : Signal D)
      → (is_duplicate clock.duplicate_check s.signal_id e.replay_protection).0 ≡ true
      → Untouched e (execute f c clock e s)
  duplicate_Untouched e s duplicate =
      execute_elim f c clock e s (Untouched e) (λ _. (refl, refl)) (λ _ _. (refl, refl))
        (λ _ _ _. (refl, refl)) (λ _ fresh _ _. ground arith)

-- The calls on the replay protection that a step makes, from `r` to `r'`, none after `now` and none
-- that marks `id`.
abbrev Replayed : String → ℕ → ReplayProtection → ReplayProtection → Type 0
Replayed id now r r' =
    (cs : List Window.Call) × (r' ≡ Window.run cs r) × All (Window.Leaves id now) cs

run_append :
    (cs ds : List Window.Call) (r : ReplayProtection)
    → Window.run (cs ++ ds) r ≡ Window.run ds (Window.run cs r)
run_append [] ds r = refl
run_append (c ∷ cs) ds r = run_append cs ds (Window.step c r)

All-append :
    (P : Window.Call → Type 0) (cs ds : List Window.Call) → All P cs → All P ds → All P (cs ++ ds)
All-append P [] ds h k = k
All-append P (c ∷ cs) ds h k = (h.0, All-append P cs ds h.1 k)

-- An execution by the bot: the answers of the venues, the clock, the signal.
pub record Attempt (D : Type 0) : Type 0 where
  pub clients : Clients D
  pub clock : Clock
  pub signal : Signal D

module _ {D : Type 0} (f : Double D) where
  abbrev pub attempt : Attempt D → Executor → Execution D
  attempt a e = execute f a.clients a.clock e a.signal

  abbrev pub attempts : List (Attempt D) → Executor → Executor
  attempts [] e = e
  attempts (a ∷ rest) e = attempts rest (attempt a e).executor

  -- An attempt with another signal, not after `now`.
  abbrev pub Other : String → ℕ → Attempt D → Type 0
  Other id now a =
      (a.signal.signal_id ≢ id) × (a.clock.duplicate_check ≤ now) × (a.clock.marked ≤ now)

  settled-Replayed :
      (id : String) (now : ℕ) (r : ReplayProtection) (a : Attempt D) (e : Executor)
      (sent : List (Request D)) (result : Result (ExecutionContext D))
      → Other id now a
      → e.replay_protection ≡ (is_duplicate a.clock.duplicate_check a.signal.signal_id r).1
      → Replayed id now r (settled e a.clock a.signal sent result).executor.replay_protection
  settled-Replayed id now r a e sent (err x) h same =
      (Window.check a.clock.duplicate_check a.signal.signal_id ∷ [], same, (h.1, tt))
  settled-Replayed id now r a e sent (ok ctx) h same = (
    Window.check a.clock.duplicate_check a.signal.signal_id
        ∷ Window.mark a.clock.marked a.signal.signal_id
        ∷ [],
    ap (mark_executed a.clock.marked a.signal.signal_id) same,
    (h.1, ((h.2, h.0), tt)),
  )

  attempt-Replayed :
      (id : String) (now : ℕ) (a : Attempt D) (e : Executor)
      → Other id now a
      → Replayed id now e.replay_protection (attempt a e).executor.replay_protection
  attempt-Replayed id now a e h =
      execute_elim f a.clients a.clock e a.signal
        (λ x. Replayed id now e.replay_protection x.executor.replay_protection)
        (λ _. ([], refl, tt))
        (λ _ _. (Window.check a.clock.duplicate_check a.signal.signal_id ∷ [], refl, (h.1, tt)))
        (λ _ _ _. (Window.check a.clock.duplicate_check a.signal.signal_id ∷ [], refl, (h.1, tt)))
        (λ _ _ _ _.
          settled-Replayed id now e.replay_protection a
            (record (replay_checked f a.clients a.clock a.signal e) {
              inventory = (ran f a.clients a.clock e a.signal).inventory;
            })
            _ _ h refl)

  attempts-Replayed :
      (id : String) (now : ℕ) (xs : List (Attempt D)) (e : Executor)
      → All (Other id now) xs
      → Replayed id now e.replay_protection (attempts xs e).replay_protection
  attempts-Replayed id now [] e h = ([], refl, tt)
  attempts-Replayed id now (a ∷ xs) e h =
      let (cs, same, leaves) = attempt-Replayed id now a e h.0 in
      let (ds, same', leaves') = attempts-Replayed id now xs (attempt a e).executor h.1 in
      (
        cs ++ ds,
        same' ∙ ap (Window.run ds) same ∙ sym (run_append cs ds e.replay_protection),
        All-append (Window.Leaves id now) cs ds leaves leaves',
      )

  -- A leg of the execution was started, and it returned.
  abbrev pub Started : Result (ExecutionContext D) → Type 0
  Started (ok ctx) = (venue : LegVenue) × (ctx.leg1_venue ≡ some venue)
  Started (err x) = ⊥

  settled-marked :
      (a : Attempt D) (e : Executor) (sent : List (Request D))
      (result : Result (ExecutionContext D))
      → Started (settled e a.clock a.signal sent result).result
      → (settled e a.clock a.signal sent result).executor.replay_protection
        ≡ mark_executed a.clock.marked a.signal.signal_id e.replay_protection
  settled-marked a e sent (err x) h = absurd h
  settled-marked a e sent (ok ctx) h = refl

  Started-marked :
      (a : Attempt D) (e : Executor)
      → Started (attempt a e).result
      → (attempt a e).executor.replay_protection
        ≡ mark_executed a.clock.marked a.signal.signal_id
            (is_duplicate a.clock.duplicate_check a.signal.signal_id e.replay_protection).1
  unfolding make_context fail
  Started-marked a e =
      execute_elim f a.clients a.clock e a.signal
        (λ x.
          Started x.result
          → x.executor.replay_protection
            ≡ mark_executed a.clock.marked a.signal.signal_id
                (is_duplicate a.clock.duplicate_check a.signal.signal_id e.replay_protection).1)
        (λ _ h. ground arith) (λ _ _ h. ground arith) (λ _ _ _ h. ground arith)
        (λ _ _ _ _ h. settled-marked a _ _ _ h)

  checked-IsMap :
      (now : ℕ) (id : String) (r : ReplayProtection)
      → Window.IsMap r
      → Window.IsMap (is_duplicate now id r).1 × ((is_duplicate now id r).1.ttl_ms ≡ r.ttl_ms)
  unfolding is_duplicate
  checked-IsMap now id r m = (Dict.filter_values-IsMap _ r.executed m, refl)

  -- After an execution that started a leg and returned, the same signal sends nothing and changes no
  -- balance as long as the time to live of the replay protection has not passed, whatever other
  -- signals were executed in between.
  pub executed_once :
      (e : Executor) (a : Attempt D) (xs : List (Attempt D)) (b : Attempt D)
      → Window.IsMap e.replay_protection
      → Started (attempt a e).result
      → All (Other a.signal.signal_id b.clock.duplicate_check) xs
      → b.signal.signal_id ≡ a.signal.signal_id
      → b.clock.duplicate_check < a.clock.marked + e.replay_protection.ttl_ms
      → let later = attempts xs (attempt a e).executor in Untouched later (attempt b later)
  executed_once e a xs b m started others same soon =
      let id : String = a.signal.signal_id in
      let now : ℕ = b.clock.duplicate_check in
      let (cs, replayed, leaves) = attempts-Replayed id now xs (attempt a e).executor others in
      let (m', ttl) = checked-IsMap a.clock.duplicate_check id e.replay_protection m in
      let exact =
        is_duplicate_exact (is_duplicate a.clock.duplicate_check id e.replay_protection).1 id
          a.clock.marked now cs m' leaves in
      duplicate_Untouched f b.clients b.clock (attempts xs (attempt a e).executor) b.signal (
        ap (λ r. (is_duplicate now b.signal.signal_id r).0)
          (replayed ∙ ap (Window.run cs) (Started-marked a e started))
        ∙ ap
            (λ j.
              (is_duplicate now j (
                Window.run cs (
                  mark_executed a.clock.marked id
                    (is_duplicate a.clock.duplicate_check id e.replay_protection).1))).0)
            same
        ∙ exact
        ∙ ap (λ n. ltb now (a.clock.marked + n)) ttl
        ∙ lt→ltb now (a.clock.marked + e.replay_protection.ttl_ms) soon)
