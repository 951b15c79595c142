-- ===== src/Core.antt =====
-- core/core.types.ts (Address, Token) and core/core.constants.ts. An address text is ASCII (viem's
-- `isAddress` has accepted it), so `toLowerCase` is the ASCII one.
use Prim.Native.Char.{code}
use internship_project_peanu.Prelude.{
  ℕ, ◌+◌, ◌^◌, ◌≡◌, refl, Bool, true, false, ◌&&◌, String, List, [], ◌∷◌, map, arith, leb, ◌==◌,
  if◌then◌else◌,
}
use internship_project_peanu.Prelude.Int.{ℤ, pos}

-- The characters of a text as numbers.
abbrev pub codes : String → List ℕ
codes String.[] = []
codes (String.◌∷◌ c s) = code c ∷ codes s

abbrev pub eq_codes : List ℕ → List ℕ → Bool
eq_codes [] [] = true
eq_codes [] (y ∷ ys) = false
eq_codes (x ∷ xs) [] = false
eq_codes (x ∷ xs) (y ∷ ys) = x == y && eq_codes xs ys

pub eq_codes→eq : (xs ys : List ℕ) → eq_codes xs ys ≡ true → xs ≡ ys
eq_codes→eq [] [] h = refl
eq_codes→eq [] (y ∷ ys) h = ground arith
eq_codes→eq (x ∷ xs) [] h = ground arith
eq_codes→eq (x ∷ xs) (y ∷ ys) h = ground (arith, eq_codes→eq xs ys)

pub eq_codes_refl : (xs : List ℕ) → eq_codes xs xs ≡ true
eq_codes_refl [] = refl
eq_codes_refl (x ∷ xs) = ground (arith, eq_codes_refl xs)

unfoldable pub to_lower : ℕ → ℕ
to_lower c = if leb b'A' c && leb c b'Z' then c + 32 else c

pub record Address : Type 0 where
  pub value : String

-- The getter `lower`.
unfoldable pub lower : Address → List ℕ
unfolding to_lower
lower a = map to_lower (codes a.value)

-- `Address.equals`.
unfoldable pub equals : Address → Address → Bool
unfolding lower
equals a b = eq_codes (lower a) (lower b)

pub record Token : Type 0 where
  pub address : Address
  pub symbol : String
  pub decimals : ℕ

abbrev pub price_scale : ℤ
price_scale = pos (10 ^ 8)

-- `10n ** BigInt(decimals)`.
abbrev pub ten_pow : ℕ → ℤ
ten_pow d = pos (10 ^ d)

pub equals→eq : (a b : Address) → equals a b ≡ true → lower a ≡ lower b
unfolding equals
equals→eq a b h = eq_codes→eq (lower a) (lower b) h

pub equals_refl : (a : Address) → equals a a ≡ true
unfolding equals
equals_refl a = eq_codes_refl (lower a)
