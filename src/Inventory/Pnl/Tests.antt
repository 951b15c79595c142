-- ===== src/Inventory/Pnl/Tests.antt =====
-- The theorem on the summary at two trades, and the summary's figures.
use internship_project_peanu.Prelude.{ℕ, ◌≡◌, refl, [], ◌∷◌}
use internship_project_peanu.Prelude.Int.{ℤ, pos, ◌+ℤ◌, ◌-ℤ◌, ◌*ℤ◌, ◌/ℤ◌}
use internship_project_peanu.Prelude.Double.{milli}
use internship_project_peanu.Inventory.Tracker.{Venue, binance, wallet, Side, buy, sell}
use internship_project_peanu.Inventory.Pnl.{
  TradeLeg, ArbRecord, PnlEngine, summary, net_pnl, gross_pnl, total_fees, group_by_hour,
  add_to_hour, utc_hour,
}

abbrev leg : Venue → Side → ℤ → TradeLeg
leg venue side price = record {
  id = "1";
  timestamp = 0;
  venue = venue;
  symbol = "ETH/USDC";
  side = side;
  amount = pos 100_000_000;
  price = price;
  fee = pos 2;
  fee_asset = "USDC";
}

abbrev arb : ℕ → ℤ → ArbRecord
arb timestamp sold = record {
  id = "1";
  timestamp = timestamp;
  buy_leg = leg binance buy (pos 100);
  sell_leg = leg wallet sell sold;
  gas_cost_usd = pos 1;
}

-- One profit of 15 and one loss of 25, in the hours 3 and 1.
abbrev ledger : PnlEngine
ledger = record { trades = arb 11_000_000 (pos 120) ∷ arb 4_000_000 (pos 80) ∷ [] }

hours_test : (summary milli (λ x. x) ledger).pnl_by_hour ≡ (1, pos 0 -ℤ pos 25) ∷ (3, pos 15) ∷ []
unfolding summary group_by_hour add_to_hour utc_hour net_pnl gross_pnl total_fees ◌+ℤ◌ ◌-ℤ◌ ◌*ℤ◌
    ◌/ℤ◌
hours_test = refl
