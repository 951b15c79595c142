-- ===== src/Integration/ArbBot/Trade/Outcomes.antt =====
-- arb_bot.service.ts: what a trade leaves behind: a halt, or a counted error.
use internship_project_peanu.Prelude.{◌≡◌, false, some, String, if_elim, ◌↔◌}
use internship_project_peanu.Prelude.Int.{ℤ}
use internship_project_peanu.Prelude.Result.{ok}
use internship_project_peanu.Inventory.Tracker.{binance, wallet, get_available}
use internship_project_peanu.Executor.Engine.Context.{split_pair}
use internship_project_peanu.Integration.ArbBot.{
  Bot, base_mismatch_threshold, quote_mismatch_threshold, balances_match, sync_balances, stop,
}
use internship_project_peanu.Integration.ArbBot.Flight.{SettleAnswers}
use internship_project_peanu.Integration.ArbBot.Trade.{settle, synced, verified}
use internship_project_peanu.Integration.ArbBot.Trade.Cases.{Near, balances_match_iff}

module _ {D : Type 0} where
  -- The balances of the pair on the two venues are as near to the expected ones as is tolerated.
  abbrev pub IsNear : String → ℤ × ℤ → Bot D → Type 0
  IsNear pair expected b =
      Near base_mismatch_threshold (get_available wallet (split_pair pair).0 b.inventory) expected.0
      × Near quote_mismatch_threshold (get_available binance (split_pair pair).1 b.inventory)
          expected.1

  verified-stopping :
      (pair : String) (expected : ℤ × ℤ) (b : Bot D)
      → b.stopping ≡ false
      → ((verified pair (some expected) b).stopping ≡ false) ↔ IsNear pair expected b
  verified-stopping pair expected b h =
      let matches = balances_match (split_pair pair).0 (split_pair pair).1 expected b in
      let near =
        balances_match_iff (split_pair pair).0 (split_pair pair).1 expected.0 expected.1 b in
      if_elim {A = Bot D} (λ c. (c.stopping ≡ false) ↔ IsNear pair expected b) matches b (stop b)
        (λ same. (λ _. near.0 same, λ _. h)) (λ off. (λ x. cc x, λ x. cc (off, near.1 x)))

  -- After a trade that was done, and a sync that succeeds, a bot that was not stopping goes on
  -- exactly when both balances are within their thresholds of what was expected, up and down.
  pub settle-stopping :
      (a : SettleAnswers) (pair : String) (expected : ℤ × ℤ) (b : Bot D)
      → (sync_balances a.sync b).0 ≡ ok tt
      → b.stopping ≡ false
      → ((settle a pair (some expected) b).stopping ≡ false)
        ↔ IsNear pair expected (sync_balances a.sync b).1
  unfolding settle sync_balances
  settle-stopping a pair expected b synced running =
      rw synced (verified-stopping pair expected _ running)
