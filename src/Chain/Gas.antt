-- ===== src/Chain/Gas.antt =====
-- chain/gas.calculator.ts (`GasPrice`) and the fees that `getGasPrice` of chain.client.ts samples.
pub mod Growth
use internship_project_peanu.Prelude.{
  ℕ, ◌/◌, Bool, Option, none, some, List, [], ◌∷◌, map, get_elem?, length, if◌then◌else◌,
}
use internship_project_peanu.Prelude.Int.{ℤ, pos, ◌+ℤ◌, ◌*ℤ◌, ◌/ℤ◌, ltb_ℤ}
use internship_project_peanu.Prelude.Double.{Double}

pub data Priority : Type 0 where
  low medium high : Priority

pub record GasPrice : Type 0 where
  pub base_fee : ℤ
  pub priority_fee_low : ℤ
  pub priority_fee_medium : ℤ
  pub priority_fee_high : ℤ

abbrev pub priority_fee : Priority → GasPrice → ℤ
priority_fee low g = g.priority_fee_low
priority_fee medium g = g.priority_fee_medium
priority_fee high g = g.priority_fee_high

-- The buffer in thousandths, as `Math.round(buffer * 1000)` gives it.
unfoldable pub get_max_fee : Priority → ℤ → GasPrice → ℤ
get_max_fee priority buffer g = (g.base_fee *ℤ buffer) /ℤ pos 1_000 +ℤ priority_fee priority g

-- The default of 1.2.
abbrev pub default_buffer : ℤ
default_buffer = pos 1_200

-- `a ?? 0n`
abbrev pub or_zero : Option ℤ → ℤ
or_zero none = pos 0
or_zero (some x) = x

-- `sort` with the code's comparison, which is stable.
abbrev pub insert : ℤ → List ℤ → List ℤ
insert x [] = x ∷ []
insert x (y ∷ ys) = let rest = insert x ys in if ltb_ℤ y x then y ∷ rest else x ∷ y ∷ ys

abbrev pub sorted : List ℤ → List ℤ
sorted [] = []
sorted (x ∷ xs) = insert x (sorted xs)

-- The rewards of a block, at the percentiles asked for.
unfoldable pub median_reward : ℕ → List (List ℤ) → ℤ
median_reward index rewards =
    let values = map (λ r. or_zero (get_elem? r index)) rewards in
    or_zero (get_elem? (sorted values) (length values / 2))

-- A block's base fee, and the fee history; both may be missing.
unfoldable pub gas_price_of : Option ℤ → Option (List (List ℤ)) → GasPrice
gas_price_of base none = record {
  base_fee = or_zero base;
  priority_fee_low = pos 0;
  priority_fee_medium = pos 0;
  priority_fee_high = pos 0;
}
gas_price_of base (some rewards) = record {
  base_fee = or_zero base;
  priority_fee_low = median_reward 0 rewards;
  priority_fee_medium = median_reward 1 rewards;
  priority_fee_high = median_reward 2 rewards;
}
