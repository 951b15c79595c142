-- ===== src/Strategy/Service.antt =====
-- strategy/signal.service.ts: `SignalService`, which makes a signal of a check's result.
use internship_project_peanu.Prelude.{ℕ, ◌+◌, true, not, Option, none, some, String, if◌then◌else◌}
use internship_project_peanu.Prelude.Int.{ℤ, pos, ◌+ℤ◌, ◌*ℤ◌, ◌/ℤ◌}
use internship_project_peanu.Prelude.Double.{Double}
use internship_project_peanu.Core.{price_scale}
use internship_project_peanu.Strategy.Signal.{Signal, Direction, is_buy_dex}
use internship_project_peanu.Integration.ArbChecker.{ArbCheckResult}

module _ {D : Type 0} (f : Double D) where
  open f use {of_ℤ, add, mul, quot, round}

  -- `BigInt(Math.round(bps)) * quoteNeeded / 10_000n`
  abbrev pub of_bps : D → ℤ → ℤ
  of_bps bps quote_needed = (round bps *ℤ quote_needed) /ℤ pos 10_000

  unfoldable pub signal_from : String → ℕ → ℕ → Direction → ArbCheckResult D → Signal D
  signal_from id now ttl_ms d r =
      let quote_needed = r.inventory_details.quote_needed in
      let gas = round (mul r.details.gas_cost_usd (of_ℤ price_scale)) in
      let penalty = add (of_ℤ (pos 1)) (quot r.details.dex_price_impact_bps (of_ℤ (pos 10_000))) in
      record {
        signal_id = id;
        pair = r.pair;
        direction = d;
        cex_price = if is_buy_dex d then r.cex_bid else r.cex_ask;
        dex_price = r.dex_price;
        spread_bps = r.gap_bps;
        size = r.inventory_details.base_needed;
        expected_gross_pnl = of_bps r.gap_bps quote_needed;
        expected_fees = of_bps r.details.total_cost_bps quote_needed +ℤ gas;
        expected_net_pnl = of_bps r.estimated_net_pnl_bps quote_needed;
        score = quot r.estimated_net_pnl_bps penalty;
        timestamp = now;
        expiry = now + ttl_ms;
        inventory_ok = r.inventory_ok;
        within_limits = true;
      }

  abbrev pub create_in : String → ℕ → ℕ → ArbCheckResult D → Option Direction → Option (Signal D)
  create_in id now ttl_ms r none = none
  create_in id now ttl_ms r (some d) =
      if not r.executable then none else some (signal_from id now ttl_ms d r)

  -- `SignalService.create`; the identifier is random.
  unfoldable pub create : String → ℕ → ℕ → ArbCheckResult D → Option (Signal D)
  create id now ttl_ms r = create_in id now ttl_ms r r.direction
