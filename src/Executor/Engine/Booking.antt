-- ===== src/Executor/Engine/Booking.antt =====
-- engine.service.ts: `recordTrades` and `calculatePnl`.
pub mod Totals
pub mod Profit
use internship_project_peanu.Prelude.{Bool, true, false, Option, none, some, String, if◌then◌else◌}
use internship_project_peanu.Prelude.Int.{ℤ, pos, ◌+ℤ◌, ◌-ℤ◌, ◌*ℤ◌, ◌/ℤ◌, ltb_ℤ}
use internship_project_peanu.Prelude.Result.{Error, Result, ok, err}
use internship_project_peanu.Core.{price_scale}
use internship_project_peanu.Strategy.Signal.{Signal, Direction, buy_cex_sell_dex, buy_dex_sell_cex}
use internship_project_peanu.Inventory.Tracker.{
  InventoryTracker, Venue, binance, wallet, Side, buy, sell, Trade, record_trade,
}
use internship_project_peanu.Executor.Engine.Context.{
  ExecutionContext, LegVenue, cex, dex, split_pair,
}
use internship_project_peanu.Executor.Engine.Legs.{cex_side, opposite, or_else}
use internship_project_peanu.Executor.Engine.Unwind.{is_dex}

-- The trade of one leg, with its fee in the quote asset.
unfoldable pub leg_trade : String × String → Side → ℤ → ℤ → ℤ → Trade
leg_trade (base, quote) side size price half_fee_bps =
    let notional = (size *ℤ price) /ℤ price_scale in
    record {
      side = side;
      base_asset = base;
      quote_asset = quote;
      base_amount = size;
      quote_amount = notional;
      fee = (notional *ℤ half_fee_bps) /ℤ pos 10_000;
      fee_asset = quote;
    }

abbrev pub second_booked :
    InventoryTracker → Result InventoryTracker → InventoryTracker × Option Error
second_booked before (err e) = (before, some e)
second_booked before (ok t) = (t, none)

-- Two trades in a row: the first stays recorded when the second throws.
abbrev pub then_record :
    Venue → Trade → InventoryTracker → Result InventoryTracker → InventoryTracker × Option Error
then_record venue x before (err e) = (before, some e)
then_record venue x before (ok t) = second_booked t (record_trade venue x t)

abbrev pub gross_scaled : Direction → ℤ → ℤ → ℤ → ℤ
gross_scaled buy_cex_sell_dex leg1_price leg2_price size =
    ((leg2_price -ℤ leg1_price) *ℤ size) /ℤ price_scale
gross_scaled buy_dex_sell_cex leg1_price leg2_price size =
    ((leg1_price -ℤ leg2_price) *ℤ size) /ℤ price_scale

module _ {D : Type 0} where
  abbrev pub leg1_venue_of : ExecutionContext D → Venue
  leg1_venue_of ctx = if is_dex ctx.leg1_venue then wallet else binance

  abbrev pub leg2_venue_of : ExecutionContext D → Venue
  leg2_venue_of ctx = if is_dex ctx.leg1_venue then binance else wallet

  abbrev pub leg1_side : ExecutionContext D → Side
  leg1_side ctx =
      if is_dex ctx.leg1_venue
      then opposite (cex_side ctx.signal.direction)
      else cex_side ctx.signal.direction

  abbrev pub leg1_trade : ℤ → ExecutionContext D → Trade
  leg1_trade combined_fee_rate_bps ctx =
      leg_trade (split_pair ctx.signal.pair) (leg1_side ctx) (or_else ctx.leg1_fill_size (pos 0))
        (or_else ctx.leg1_fill_price (pos 0)) (combined_fee_rate_bps /ℤ pos 2)

  abbrev pub leg2_trade : ℤ → ExecutionContext D → Trade
  leg2_trade combined_fee_rate_bps ctx =
      leg_trade (split_pair ctx.signal.pair) (opposite (leg1_side ctx))
        (or_else ctx.leg2_fill_size (pos 0)) (or_else ctx.leg2_fill_price (pos 0))
        (combined_fee_rate_bps /ℤ pos 2)

  unfoldable pub record_trades :
      ℤ → ExecutionContext D → InventoryTracker → InventoryTracker × Option Error
  record_trades combined_fee_rate_bps ctx t =
      then_record (leg2_venue_of ctx) (leg2_trade combined_fee_rate_bps ctx) t
        (record_trade (leg1_venue_of ctx) (leg1_trade combined_fee_rate_bps ctx) t)

  unfoldable pub calculate_pnl : ExecutionContext D → ℤ
  calculate_pnl ctx =
      let signal = ctx.signal in
      let size = or_else ctx.leg1_fill_size (pos 0) in
      let gross =
        gross_scaled signal.direction (or_else ctx.leg1_fill_price (pos 0))
          (or_else ctx.leg2_fill_price (pos 0)) size in
      let fill_ratio =
        if ltb_ℤ (pos 0) signal.size then (size *ℤ pos 10_000) /ℤ signal.size else pos 10_000 in
      gross -ℤ (signal.expected_fees *ℤ fill_ratio) /ℤ pos 10_000
