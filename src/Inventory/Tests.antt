-- ===== src/Inventory/Tests.antt =====
-- The theorems of inventory/ on a small tracker.
use internship_project_peanu.Prelude.{◌≡◌, refl, none, some, List, [], ◌∷◌, arith}
use internship_project_peanu.Prelude.Int.{pos, ◌≤ℤ◌}
use internship_project_peanu.Prelude.Result.{ok, err, out_of_fuel}
use internship_project_peanu.Prelude.Dict
use internship_project_peanu.Prelude.Dict.{Dict}
use internship_project_peanu.Inventory.Tracker.{
  binance, wallet, Balance, InventoryTracker, buy, Trade,
}
use internship_project_peanu.Inventory.Rebalancer.{
  TransferFeeInfo, TransferPlan, Side, available_at, matched,
}
use internship_project_peanu.Inventory.Rebalancer.Loop.{matched_never_ends, matched_ends}
use internship_project_peanu.Inventory.Tracker.Totals.{IsTracker}

abbrev at_binance : Dict Balance
at_binance =
    ("USDC", record { venue = binance; asset = "USDC"; free = pos 5_000; locked = pos 100 }) ∷ []

abbrev at_wallet : Dict Balance
at_wallet = ("USDC", record { venue = wallet; asset = "USDC"; free = pos 700; locked = pos 0 }) ∷ []

abbrev tracker : InventoryTracker
tracker = record { balances = ("binance", at_binance) ∷ ("wallet", at_wallet) ∷ [] }

abbrev bought : Trade
bought = record {
  side = buy;
  base_asset = "ETH";
  quote_asset = "USDC";
  base_amount = pos 2;
  quote_amount = pos 4_000;
  fee = pos 4;
  fee_asset = "USDC";
}

tracker-IsTracker : IsTracker tracker
unfolding Dict.get
tracker-IsTracker = ((refl, tt), ((refl, tt), tt))

abbrev sender : Side
sender = record { venue = "binance"; amount = pos 2_000 }

abbrev receiver : Side
receiver = record { venue = "wallet"; amount = pos 2_100 }

abbrev drained : InventoryTracker
drained = record {
  balances =
      (
        "binance",
        ("ETH", record { venue = binance; asset = "ETH"; free = pos 0; locked = pos 4_000 }) ∷ [],
      )
      ∷ ("wallet", [])
      ∷ [];
}

nothing_free : available_at "binance" "ETH" drained ≤ℤ pos 0
unfolding Dict.get
nothing_free = ground arith

matched_never_ends_example :
    matched none (pos 0) "ETH" drained 1_000 (sender ∷ []) (receiver ∷ []) ≡ err out_of_fuel
matched_never_ends_example =
    matched_never_ends (pos 0) "ETH" drained 1_000 sender receiver [] [] (ground arith)
      (ground arith) nothing_free

abbrev fee_info : TransferFeeInfo
fee_info = record { withdrawal_fee = pos 1; min_withdrawal = pos 10; estimated_time_min = 5 }

matched_ends_example :
    (plans : List TransferPlan) × (matched
        (some fee_info)
        (pos 500)
        "USDC"
        tracker
        2_001
        (sender ∷ [])
        (receiver ∷ [])
      ≡ ok plans)
matched_ends_example =
    matched_ends fee_info (pos 500) "USDC" tracker 2_001 (sender ∷ []) (receiver ∷ [])
      (ground arith) (ground arith, tt) (ground arith)
