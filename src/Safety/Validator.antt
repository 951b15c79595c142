-- ===== src/Safety/Validator.antt =====
-- safety/pre.trade.validator.ts: `PreTradeValidator`. `Date.now()` is an argument. JavaScript's
-- `history` array is shared with the map, so pushing and setting are one write.
pub mod History
use internship_project_peanu.Prelude.{
  ℕ, ◌+◌, Bool, true, false, Option, none, some, List, [], ◌∷◌, ◌++◌, String, ltb, leb, ◌&&◌,
  if◌then◌else◌, length,
}
use internship_project_peanu.Prelude.Int.{ℤ, pos, ◌+ℤ◌, ◌-ℤ◌, ◌/ℤ◌, ltb_ℤ, leb_ℤ}
use internship_project_peanu.Prelude.Double.{Double}
use internship_project_peanu.Prelude.Dict
use internship_project_peanu.Prelude.Dict.{Dict}
use internship_project_peanu.Strategy.Signal.{Signal}
use internship_project_peanu.Safety.Check.{
  RiskCheckResult, allow, refuse, invalid_cex_price, invalid_dex_price, spread_too_high,
  signal_too_old, invalid_trade_size, price_deviates,
}

pub record PreTradeValidator (D : Type 0) : Type 0 where
  pub max_spread_bps : D
  pub max_signal_age_s : D
  pub max_price_deviation : D
  pub price_history_size : ℕ
  pub price_history : Dict (List ℤ)

abbrev pub default_price_history_size : ℕ
default_price_history_size = 20

-- `history.reduce((sum, p) => sum + p, 0n)`
unfoldable pub sum_from : ℤ → List ℤ → ℤ
sum_from acc [] = acc
sum_from acc (p ∷ ps) = sum_from (acc +ℤ p) ps

-- `?? []`
abbrev pub or_empty : Option (List ℤ) → List ℤ
or_empty none = []
or_empty (some history) = history

abbrev pub history_of : {D : Type 0} → PreTradeValidator D → String → List ℤ
history_of v pair = or_empty (Dict.get pair v.price_history)

-- `history.push(price)`, and `history.shift()` when it has become too long.
abbrev shift : List ℤ → List ℤ
shift [] = []
shift (p ∷ ps) = ps

unfoldable pub push_price : ℕ → ℤ → List ℤ → List ℤ
push_price size price history =
    let pushed = history ++ price ∷ [] in if ltb size (length pushed) then shift pushed else pushed

module _ {D : Type 0} (f : Double D) where
  open f use {of_ℤ, quot, abs, lt}

  -- The price deviates from the average of a history that is not empty and whose average is
  -- positive.
  unfoldable pub deviates : PreTradeValidator D → ℤ → List ℤ → Bool
  unfolding sum_from
  deviates v price [] = false
  deviates v price (p ∷ ps) =
      let avg = sum_from (pos 0) (p ∷ ps) /ℤ pos (length (p ∷ ps)) in
      ltb_ℤ (pos 0) avg && lt v.max_price_deviation (quot (abs (of_ℤ (price -ℤ avg))) (of_ℤ avg))

  unfoldable pub validate_price_feed :
      ℤ → String → PreTradeValidator D → RiskCheckResult × PreTradeValidator D
  validate_price_feed price pair v =
      let history = history_of v pair in
      if deviates v price history then (refuse price_deviates, v) else (
        allow,
        record v {
          price_history =
              Dict.put pair (push_price v.price_history_size price history) v.price_history;
        },
      )

  unfoldable pub validate_signal :
      ℕ → Signal D → PreTradeValidator D → RiskCheckResult × PreTradeValidator D
  validate_signal now s v =
      let age_s = quot (of_ℤ (pos now -ℤ pos s.timestamp)) (of_ℤ (pos 1_000)) in
      if leb_ℤ s.cex_price (pos 0)
      then (refuse invalid_cex_price, v)
      else if leb_ℤ s.dex_price (pos 0)
      then (refuse invalid_dex_price, v)
      else if lt v.max_spread_bps s.spread_bps
      then (refuse spread_too_high, v)
      else if lt v.max_signal_age_s age_s
      then (refuse signal_too_old, v)
      else if leb_ℤ s.size (pos 0)
      then (refuse invalid_trade_size, v)
      else validate_price_feed s.cex_price s.pair v
