-- ===== src/Integration/ArbChecker/Tests.antt =====
-- The theorem on the checker, on one pool; fractions are numbers of three decimals.
use internship_project_peanu.Prelude.{none, some, [], ◌∷◌}
use internship_project_peanu.Prelude.Int.{ℤ, pos}
use internship_project_peanu.Prelude.Dict
use internship_project_peanu.Prelude.Dict.{Dict}
use internship_project_peanu.Core.{Token}
use internship_project_peanu.Pricing.Pair.{UniswapV2Pair}
use internship_project_peanu.Exchange.OrderBook.{OrderBook}
use internship_project_peanu.Inventory.Tracker.{InventoryTracker, Balance, binance, wallet}
use internship_project_peanu.Integration.ArbChecker.{PairConfig}

abbrev weth : Token
weth = record { address = record { value = "0xAa" }; symbol = "WETH"; decimals = 8 }

abbrev usdc : Token
usdc = record { address = record { value = "0xbB" }; symbol = "USDC"; decimals = 8 }

abbrev pool : UniswapV2Pair
pool = record {
  address = record { value = "0xF0" };
  token0 = weth;
  token1 = usdc;
  reserve0 = pos 100_000_000_000;
  reserve1 = pos 200_000_000_000_000;
  fee_bps = pos 30;
}

abbrev config : PairConfig ℤ
config = record {
  pair = "ETH/USDC";
  base_asset = "WETH";
  quote_asset = "USDC";
  inventory_base_asset = some "ETH";
  inventory_quote_asset = none;
  pool = pool;
  trade_size = pos 10_000_000;
  dex_fee_bps = pos 30_000;
  cex_fee_bps = pos 10_000;
  gas_cost_usd = pos 2_000;
  dex_venue = wallet;
  cex_venue = binance;
}

-- The exchange buys at 2100, the pool sells at about 2000.
abbrev book : OrderBook
book = record {
  bids = (pos 210_000_000_000, pos 500_000_000) ∷ [];
  asks = (pos 211_000_000_000, pos 500_000_000) ∷ [];
  best_bid = (pos 210_000_000_000, pos 500_000_000);
  best_ask = (pos 211_000_000_000, pos 500_000_000);
  mid_price = pos 210_500_000_000;
}

abbrev at_binance : Dict Balance
at_binance =
    ("ETH", record { venue = binance; asset = "ETH"; free = pos 900_000_000; locked = pos 0 }) ∷ []

abbrev at_wallet : Dict Balance
at_wallet =
    ("USDC", record { venue = wallet; asset = "USDC"; free = pos 500_000_000_000; locked = pos 0 })
    ∷ []

abbrev tracker : InventoryTracker
tracker = record { balances = ("binance", at_binance) ∷ ("wallet", at_wallet) ∷ [] }

abbrev pairs : Dict (PairConfig ℤ)
pairs = ("ETH/USDC", config) ∷ []
