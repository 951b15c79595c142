-- ===== src/Integration/ArbBot/Gates/Cases.antt =====
-- arb_bot.service.ts: the ways through the gates, for the proofs about them.
use internship_project_peanu.Prelude.{◌≡◌, refl, Bool, true, false, ◌&&◌, if_elim, if◌then◌else◌}
use internship_project_peanu.Prelude.Double.{Double}
use internship_project_peanu.Integration.ArbBot.{Bot, idle, generating, executing, BotState, stop}
use internship_project_peanu.Integration.ArbBot.Flight.{GateAnswers}
use internship_project_peanu.Integration.ArbBot.Gates.{
  is_idle, file_check_of, file_checked, auto_kill_check, kill_checked, check_safety_gates,
  begin_tick,
}

idle_lem : (state : BotState) → is_idle state ≡ true → state ≡ idle
idle_lem idle h = refl
idle_lem generating h = cc
idle_lem executing h = cc

module _ {D : Type 0} (f : Double D) (a : GateAnswers) (b : Bot D) where
  -- What holds of a bot that is stopped by either gate, that is busy, and that starts a tick, holds
  -- of the bot after the gates.
  pub begin_elim :
      (P : Bool × Bot D → Type 0)
      → P (false, stop (file_checked a b))
      → P (false, stop (kill_checked f a b))
      → P (false, kill_checked f a b)
      → ((file_check_of a b).0 ≡ false
          → (auto_kill_check f a b).0 ≡ false
          → b.tick_state ≡ idle
          → P (true, record (kill_checked f a b) { tick_state = generating }))
      → P (begin_tick f a b)
  unfolding begin_tick check_safety_gates
  begin_elim P killed auto_killed busy free =
      let Q : Bool × Bot D → Type 0 = λ x. P (
        if x.0 && is_idle x.1.tick_state
        then (true, record x.1 { tick_state = generating })
        else (false, x.1)) in
      if_elim Q (file_check_of a b).0 (false, stop (file_checked a b)) _ (λ _. killed)
        (λ quiet.
          if_elim Q (auto_kill_check f a b).0 (false, stop (kill_checked f a b))
            (true, kill_checked f a b) (λ _. auto_killed)
            (λ calm.
              if_elim P (is_idle b.tick_state)
                (true, record (kill_checked f a b) { tick_state = generating })
                (false, kill_checked f a b) (λ rest. free quiet calm (idle_lem b.tick_state rest))
                (λ _. busy)))
