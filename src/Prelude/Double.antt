-- ===== src/Prelude/Double.antt =====
-- JavaScript's `number` where the code uses it for fractions: the type and the operations that the
-- code calls are a parameter, so that what is proved holds whatever the rounding.
use mathlib.Core.Bool.{Bool}
use internship_project_peanu.Prelude.Tests.{if◌then◌else◌}
use internship_project_peanu.Prelude.Int.{ℤ, pos, ◌+ℤ◌, ◌-ℤ◌, ◌*ℤ◌, ◌/ℤ◌, neg, ltb_ℤ, leb_ℤ}

pub record Double (D : Type 0) : Type 0 where
  -- `Number(v)` of a bigint, and an integer literal
  pub of_ℤ : ℤ → D
  pub add : D → D → D
  pub sub : D → D → D
  pub mul : D → D → D
  pub quot : D → D → D
  pub abs : D → D
  pub lt : D → D → Bool
  pub le : D → D → Bool
  -- `BigInt(Math.round(x))` and `BigInt(Math.floor(x))`
  pub round : D → ℤ
  pub floor : D → ℤ

-- A concrete instance, for examples: numbers of three decimals, cut off.
abbrev pub milli : Double ℤ
milli = record {
  of_ℤ = λ n. n *ℤ pos 1_000;
  add = λ a b. a +ℤ b;
  sub = λ a b. a -ℤ b;
  mul = λ a b. (a *ℤ b) /ℤ pos 1_000;
  quot = λ a b. (a *ℤ pos 1_000) /ℤ b;
  abs = λ a. if ltb_ℤ a (pos 0) then neg a else a;
  lt = λ a b. ltb_ℤ a b;
  le = λ a b. leb_ℤ a b;
  round = λ a. (a +ℤ pos 500) /ℤ pos 1_000;
  floor = λ a. a /ℤ pos 1_000;
}
