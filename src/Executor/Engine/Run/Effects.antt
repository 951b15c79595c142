-- ===== src/Executor/Engine/Run/Effects.antt =====
-- engine.service.ts: what is sent to the venues when a leg does not fill as it should.
use internship_project_peanu.Prelude.{
  ◌≡◌, true, false, not, Option, none, some, List, ap, ◌∙◌, if_true, if_false,
}
use internship_project_peanu.Prelude.Int.{ℤ, pos, ◌*ℤ◌, ltb_ℤ}
use internship_project_peanu.Prelude.Result.{Result, ok, div}
use internship_project_peanu.Prelude.Double.{Double}
use internship_project_peanu.Prelude.Dict
use internship_project_peanu.Executor.Engine.Context.{
  Executor, ExecutionContext, LegResult, partial_fill, Request, Clients, Clock,
}
use internship_project_peanu.Executor.Engine.Run.{checked_fill, after_leg1_cex, failed_outcome}

-- A leg that did not fill: it is late, or it says so.
abbrev pub NotFilled : Option LegResult → Type 0
NotFilled none = Unit
NotFilled (some leg) = leg.success ≡ false

module _ {D : Type 0} (f : Double D) (e : Executor) (c : Clients D) (clock : Clock) where
  -- A first leg at the exchange that fills less than the least ratio fails the execution: no request
  -- follows the leg's own, so that what was filled is not unwound.
  pub partial_fill_left_open :
      (sent : List (Request D)) (ctx : ExecutionContext D) (leg : LegResult) (ratio : ℤ)
      → leg.success ≡ true
      → div (leg.filled *ℤ pos 10_000) ctx.signal.size ≡ ok ratio
      → ltb_ℤ ratio e.min_fill_scaled ≡ true
      → after_leg1_cex f e c clock sent ctx (some leg)
        ≡ failed_outcome sent e.inventory partial_fill ctx
  partial_fill_left_open sent ctx leg ratio success division small =
      if_false (not leg.success) _ _ (ap not success)
      ∙ ap (checked_fill f e c clock sent leg ctx) division
      ∙ if_true (ltb_ℤ ratio e.min_fill_scaled) _ _ small
