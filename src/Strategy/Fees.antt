-- ===== src/Strategy/Fees.antt =====
-- strategy/fee.calculator.ts: `FeeCalculator`. The rates are whole basis points: `BigInt` refuses
-- others.
use internship_project_peanu.Prelude.{Option, none, some, if◌then◌else◌}
use internship_project_peanu.Prelude.Int.{ℤ, pos, ◌+ℤ◌, ◌-ℤ◌, ◌*ℤ◌, ◌/ℤ◌, eqb_ℤ}
use internship_project_peanu.Prelude.Double.{Double}

pub record FeeCalculator : Type 0 where
  pub cex_taker_bps : ℤ
  pub dex_swap_bps : ℤ
  pub gas_cost : ℤ

-- `liveGasCost ?? this.gasCost`
abbrev pub gas_or : Option ℤ → ℤ → ℤ
gas_or none d = d
gas_or (some live) d = live

unfoldable pub total_fee : FeeCalculator → ℤ → Option ℤ → ℤ
total_fee c trade_value live_gas_cost =
    (trade_value *ℤ (c.cex_taker_bps +ℤ c.dex_swap_bps)) /ℤ pos 10_000
    +ℤ gas_or live_gas_cost c.gas_cost

unfoldable pub total_fee_bps : {D : Type 0} → Double D → FeeCalculator → ℤ → D
total_fee_bps f c trade_value =
    if eqb_ℤ trade_value (pos 0)
    then f.of_ℤ (pos 0)
    else f.mul (f.quot (f.of_ℤ (total_fee c trade_value none)) (f.of_ℤ trade_value))
        (f.of_ℤ (pos 10_000))

unfoldable pub breakeven_spread_bps : {D : Type 0} → Double D → FeeCalculator → ℤ → D
breakeven_spread_bps f c trade_value = total_fee_bps f c trade_value

unfoldable pub net_profit : FeeCalculator → ℤ → ℤ → ℤ
net_profit c spread_bps trade_value =
    (spread_bps *ℤ trade_value) /ℤ pos 10_000 -ℤ total_fee c trade_value none
