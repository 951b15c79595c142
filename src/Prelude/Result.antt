-- ===== src/Prelude/Result.antt =====
-- Code that may throw returns a result; the errors are the classes that the code throws.
use Prim.Native.String.{String}
use mathlib.Core.Path.{◌≡◌, refl}
use mathlib.Core.Bool.{Bool, true, false}
use mathlib.Core.Logic.{◌⊎◌, inl, inr}
use internship_project_peanu.Prelude.Tests.{if◌then◌else◌}
use internship_project_peanu.Prelude.Int.{ℤ, pos, ◌/ℤ◌, eqb_ℤ}

pub data Error : Type 0 where
  insufficient_liquidity : String → Error
  unknown_token : Error
  invalid_route : Error
  no_route_found : Error
  unregistered_venue : Error
  stale_quote : Error
  configuration : String → Error
  unwind_failed : Error
  exchange_failed : String → Error
  quote_failed : String → Error
  unknown_pair : Error
  pair_config : Error
  -- the RangeError of a bigint division by 0n
  division_by_zero : Error
  -- the loop was cut by the model's fuel
  out_of_fuel : Error

pub data Result (A : Type 0) : Type 0 where
  ok : A → Result A
  err : Error → Result A

module _ {A B : Type 0} where
  infixl 10 ◌>>=◌ ◌>>◌
  -- A throw skips what follows it.
  abbrev pub ◌>>=◌ : Result A → (A → Result B) → Result B
  err thrown >>= next = err thrown
  ok value >>= next = next value

  abbrev pub ◌>>◌ : Result A → Result B → Result B
  first >> next = first >>= λ _. next

-- `if (test) throw e`
abbrev pub throw_if : Bool → Error → Result (Unit {0})
throw_if true e = err e
throw_if false e = ok tt

-- `a / b` on bigints, where `b` may be 0n.
abbrev pub div : ℤ → ℤ → Result ℤ
div a b = if eqb_ℤ b (pos 0) then err division_by_zero else ok (a /ℤ b)

pub Result-cases :
    {A : Type 0} (r : Result A) → ((a : A) × (r ≡ ok a)) ⊎ ((e : Error) × (r ≡ err e))
Result-cases (ok a) = inl (a, refl)
Result-cases (err e) = inr (e, refl)
