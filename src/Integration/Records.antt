-- ===== src/Integration/Records.antt =====
-- integration/arbBot/arb_bot.utils.ts: the ledger entries that the bot makes of signals and of
-- executions.
pub mod Ledger
use Prim.Native.Char.{code}
use internship_project_peanu.Prelude.{
  ◌==◌, Bool, true, false, not, ◌||◌, Option, none, some, String, if◌then◌else◌,
}
use internship_project_peanu.Prelude.Int.{pos}
use internship_project_peanu.Strategy.Signal.{Signal, is_buy_dex}
use internship_project_peanu.Inventory.Tracker.{binance, wallet, buy, sell}
use internship_project_peanu.Inventory.Pnl.{ArbRecord, TradeLeg}
use internship_project_peanu.Executor.Engine.Context.{
  ExecutionContext, LegVenue, cex, dex, split_pair,
}
use internship_project_peanu.Executor.Engine.Legs.{or_else}
use internship_project_peanu.Executor.Engine.Unwind.{is_dex}

-- `const [, quote = 'USDT'] = pair.split('/')`
has_slash : String → Bool
has_slash String.[] = false
has_slash (String.◌∷◌ c s) = code c == b'/' || has_slash s

pub quote_of : String → String
quote_of pair = if has_slash pair then (split_pair pair).1 else "USDT"

-- `a ?? b` on times
abbrev or_time {ℓ} : {A : Type ℓ} → Option A → A → A
or_time none d = d
or_time (some t) d = t

abbrev pub is_cex : Option LegVenue → Bool
is_cex (some cex) = true
is_cex (some dex) = false
is_cex none = false

module _ {D : Type 0} where
  abbrev pub is_buy_cex : Signal D → Bool
  is_buy_cex s = not (is_buy_dex s.direction)

  -- The identifiers of the legs are the signal's; the code adds `_buy` and `_sell`.
  unfoldable pub signal_to_arb_record : Signal D → ArbRecord
  signal_to_arb_record s =
      let quote = quote_of s.pair in
      let buy_leg : TradeLeg = record {
        id = s.signal_id;
        timestamp = s.timestamp;
        venue = if is_buy_cex s then binance else wallet;
        symbol = s.pair;
        side = buy;
        amount = s.size;
        price = if is_buy_cex s then s.cex_price else s.dex_price;
        fee = s.expected_fees;
        fee_asset = quote;
      } in
      let sell_leg : TradeLeg = record {
        id = s.signal_id;
        timestamp = s.timestamp;
        venue = if is_buy_cex s then wallet else binance;
        symbol = s.pair;
        side = sell;
        amount = s.size;
        price = if is_buy_cex s then s.dex_price else s.cex_price;
        fee = pos 0;
        fee_asset = quote;
      } in
      record {
        id = s.signal_id;
        timestamp = s.timestamp;
        buy_leg = buy_leg;
        sell_leg = sell_leg;
        gas_cost_usd = pos 0;
      }

  -- `buyIsLeg1`
  abbrev pub buy_is_leg1 : ExecutionContext D → Bool
  buy_is_leg1 ctx = if is_buy_cex ctx.signal then is_cex ctx.leg1_venue else is_dex ctx.leg1_venue

  unfoldable pub execution_to_arb_record : ExecutionContext D → ArbRecord
  execution_to_arb_record ctx =
      let s = ctx.signal in
      let quote = quote_of s.pair in
      let leg1 = buy_is_leg1 ctx in
      let buy_leg : TradeLeg = record {
        id = s.signal_id;
        timestamp = ctx.started_at;
        venue = if is_buy_cex s then binance else wallet;
        symbol = s.pair;
        side = buy;
        amount = or_else (if leg1 then ctx.leg1_fill_size else ctx.leg2_fill_size) (pos 0);
        price = or_else (if leg1 then ctx.leg1_fill_price else ctx.leg2_fill_price) (pos 0);
        fee = pos 0;
        fee_asset = quote;
      } in
      let sell_leg : TradeLeg = record {
        id = s.signal_id;
        timestamp = or_time ctx.finished_at ctx.started_at;
        venue = if is_buy_cex s then wallet else binance;
        symbol = s.pair;
        side = sell;
        amount = or_else (if leg1 then ctx.leg2_fill_size else ctx.leg1_fill_size) (pos 0);
        price = or_else (if leg1 then ctx.leg2_fill_price else ctx.leg1_fill_price) (pos 0);
        fee = pos 0;
        fee_asset = quote;
      } in
      record {
        id = s.signal_id;
        timestamp = ctx.started_at;
        buy_leg = buy_leg;
        sell_leg = sell_leg;
        gas_cost_usd = pos 0;
      }
