-- ===== src/Integration/ArbBot.antt =====
-- integration/arbBot/arb_bot.service.ts: the state of `ArbBot` and the methods that read the clock
-- and the outside at one place. The tracker and the fee calculator are shared objects: they are
-- fields here, and the generator, the executor and the planner are given them where they run.
pub mod Flight
pub mod Gates
pub mod Decide
pub mod Trade
pub mod Events
mod Tests
use internship_project_peanu.Prelude.{
  ℕ, ◌+◌, ◌^◌, ◌==◌, Bool, true, false, not, ◌||◌, Option, none, some, List, [], ◌∷◌, String, ltb,
  if◌then◌else◌,
}
use internship_project_peanu.Prelude.Int.{ℤ, pos, ◌+ℤ◌, ◌-ℤ◌, ◌*ℤ◌, ◌/ℤ◌, ltb_ℤ, leb_ℤ, eqb_ℤ}
use internship_project_peanu.Prelude.Result.{Error, Result, ok, err, ◌>>=◌, ◌>>◌}
use internship_project_peanu.Prelude.Double.{Double}
use internship_project_peanu.Prelude.Dict
use internship_project_peanu.Prelude.Dict.{Dict}
use internship_project_peanu.Core.{Token, equals, price_scale, ten_pow}
use internship_project_peanu.Pricing.Pair.{UniswapV2Pair}
use internship_project_peanu.Inventory.Tracker.{
  InventoryTracker, AssetBalance, Venue, binance, wallet, get_available, update_from_cex,
  update_from_wallet,
}
use internship_project_peanu.Inventory.Rebalancer.{RebalancePlanner}
use internship_project_peanu.Inventory.Pnl.{PnlEngine}
use internship_project_peanu.Exchange.OrderBook.{OrderBook}
use internship_project_peanu.Strategy.Signal.{Signal}
use internship_project_peanu.Strategy.Fees.{FeeCalculator}
use internship_project_peanu.Strategy.Generator.{SignalGenerator}
use internship_project_peanu.Strategy.Scorer.{SignalScorer}
use internship_project_peanu.Safety.Risk.{RiskManager, reset_daily, trade_value, prune_trade_window}
use internship_project_peanu.Safety.KillSwitch.{KillSwitchCache, AutoKillSwitch}
use internship_project_peanu.Safety.Validator.{PreTradeValidator}
use internship_project_peanu.Executor.Engine.Context.{Executor}

pub data BotState : Type 0 where
  idle generating executing : BotState

-- What the handlers read of `BotConfig`; the rest is passed to constructors.
pub record BotConfig (D : Type 0) : Type 0 where
  pub min_score : D
  pub min_profit : Option ℤ
  pub simulation_mode : Bool

-- `loadedPool`, `baseToken` and `quoteToken`, which `initialize` sets together.
pub record LoadedPool : Type 0 where
  pub pool : UniswapV2Pair
  pub base_token : Token
  pub quote_token : Token

pub record Bot (D : Type 0) : Type 0 where
  pub config : BotConfig D
  pub inventory : InventoryTracker
  pub fees : FeeCalculator
  pub planner : RebalancePlanner D
  pub pnl : PnlEngine
  pub scorer : SignalScorer D
  pub risk_manager : RiskManager D
  pub pre_trade : PreTradeValidator D
  pub auto_kill : AutoKillSwitch
  pub kill_switch_cache : KillSwitchCache
  pub generator : SignalGenerator D
  pub executor : Executor
  pub loaded : Option LoadedPool
  pub starting_capital : ℤ
  pub base_pair : String
  pub quote_pair : String
  pub tick_state : BotState
  pub stopping : Bool
  -- the message of `stop` is on its way; `stopResolve` is set; it was called, so `run` ends
  pub stop_sending : Bool
  pub waiting : Bool
  pub ended : Bool
  pub daily_loss_alerted : Bool
  pub circuit_breaker_notified : Bool
  pub daily_trade_count : ℕ
  pub daily_net_pnl : ℤ
  pub daily_wins : ℕ
  pub last_reset_day : ℕ
  -- the cost and when it was computed
  pub gas_cache : Option (ℤ × ℕ)
  pub latest_books : Dict OrderBook

abbrev pub swap_gas_units : ℤ
swap_gas_units = pos 180_000

abbrev pub gas_price_ttl_ms : ℕ
gas_price_ttl_ms = 30_000

abbrev pub gas_cost_fallback : ℤ
gas_cost_fallback = pos 500_000_000

abbrev pub gas_cost_min : ℤ
gas_cost_min = pos 200_000_000

abbrev pub base_mismatch_threshold : ℤ
base_mismatch_threshold = pos 100_000

abbrev pub quote_mismatch_threshold : ℤ
quote_mismatch_threshold = pos 100_000_000

-- The reserves of the base and the quote token.
abbrev pub pool_reserves : LoadedPool → ℤ × ℤ
pool_reserves l =
    if equals l.pool.token0.address l.base_token.address
    then (l.pool.reserve0, l.pool.reserve1)
    else (l.pool.reserve1, l.pool.reserve0)

-- The price of the base token, for a base reserve that is not zero.
unfoldable pub pool_price : LoadedPool → ℤ
pool_price l =
    let (base, quote) = pool_reserves l in
    (quote *ℤ ten_pow l.base_token.decimals *ℤ price_scale)
    /ℤ (base *ℤ ten_pow l.quote_token.decimals)

-- What the chain answers for the gas price, and the clock before and after.
pub record GasAnswer : Type 0 where
  pub check : ℕ
  pub max_fee : Result ℤ
  pub fetched : ℕ

abbrev pub cached_cost : Option (ℤ × ℕ) → ℤ
cached_cost none = gas_cost_fallback
cached_cost (some (cost, ts)) = cost

abbrev pub cached_recently : ℕ → Option (ℤ × ℕ) → Bool
cached_recently now none = false
cached_recently now (some (cost, ts)) = ltb now (ts + gas_price_ttl_ms)

abbrev pub fetched_cost : GasAnswer → LoadedPool → Result ℤ → Option (ℤ × ℕ) → ℤ × Option (ℤ × ℕ)
fetched_cost a l (err e) cache = (cached_cost cache, cache)
fetched_cost a l (ok max_fee) cache =
    let gas_cost_eth = (max_fee *ℤ swap_gas_units *ℤ price_scale) /ℤ pos (10 ^ 18) in
    let cost = (gas_cost_eth *ℤ pool_price l) /ℤ price_scale in
    let result = if ltb_ℤ gas_cost_min cost then cost else gas_cost_min in
    if eqb_ℤ (pool_reserves l).0 (pos 0)
    then (gas_cost_fallback, cache)
    else (result, some (result, a.fetched))

abbrev pub gas_cost_of : GasAnswer → Option LoadedPool → Option (ℤ × ℕ) → ℤ × Option (ℤ × ℕ)
gas_cost_of a none cache = (gas_cost_fallback, cache)
gas_cost_of a (some l) cache = fetched_cost a l a.max_fee cache

-- What a sync is answered: by the exchange, and by the chain before and after a pool is loaded.
pub record SyncAnswers : Type 0 where
  pub cex : Result (Dict AssetBalance)
  pub native_raw : Result ℤ
  pub base_raw : Result ℤ
  pub quote_raw : Result ℤ

-- The tracker after an update that may have thrown.
abbrev pub updated_or : InventoryTracker → Result InventoryTracker → InventoryTracker
updated_or t (err e) = t
updated_or t (ok u) = u

abbrev pub distance : ℤ → ℤ → ℤ
distance a b = if ltb_ℤ b a then a -ℤ b else b -ℤ a

abbrev pub capital_at : String → String → Option LoadedPool → InventoryTracker → ℤ
capital_at base quote none t = pos 0
capital_at base quote (some l) t =
    let price = if ltb_ℤ (pos 0) (pool_reserves l).0 then pool_price l else pos 0 in
    let total_base = get_available wallet base t +ℤ get_available binance base t in
    let total_quote = get_available wallet quote t +ℤ get_available binance quote t in
    (total_base *ℤ price) /ℤ price_scale +ℤ total_quote

abbrev pub configured_min_profit : Option ℤ → ℤ
configured_min_profit none = pos 0
configured_min_profit (some p) = p

abbrev pub wallet_balances : SyncAnswers → String → String → Option LoadedPool → Result (Dict ℤ)
wallet_balances a base quote none =
    a.native_raw >>= λ raw. ok (Dict.put base ((raw *ℤ price_scale) /ℤ pos (10 ^ 18)) [])
wallet_balances a base quote (some l) = a.base_raw >>= λ base_raw. a.quote_raw >>= λ quote_raw. ok (
    Dict.put quote ((quote_raw *ℤ price_scale) /ℤ ten_pow l.quote_token.decimals)
      (Dict.put base ((base_raw *ℤ price_scale) /ℤ ten_pow l.base_token.decimals) []))

module _ {D : Type 0} where
  abbrev pub shared_generator : Bot D → SignalGenerator D
  shared_generator b = record b.generator { inventory = b.inventory; fees = b.fees }

  abbrev pub shared_executor : Bot D → Executor
  shared_executor b = record b.executor { inventory = b.inventory }

  abbrev pub shared_planner : Bot D → RebalancePlanner D
  shared_planner b = record b.planner { tracker = b.inventory }

  -- A second call does nothing; the first one sends the summary before it resolves the promise.
  abbrev pub stop : Bot D → Bot D
  stop b = record b { stopping = true; stop_sending = if b.stopping then b.stop_sending else true }

  -- `stopResolve?.()`
  abbrev pub stop_sent : Bot D → Bot D
  stop_sent b = record b {
    stop_sending = false;
    ended = if b.stop_sending then b.ended || b.waiting else b.ended;
  }

  -- `run` comes to its last wait.
  abbrev pub wait_for_stop : Bot D → Bot D
  wait_for_stop b = record b { waiting = true }

  unfoldable pub compute_capital_from_inventory : String → String → Bot D → ℤ
  compute_capital_from_inventory base quote b = capital_at base quote b.loaded b.inventory

  -- The cost, and the cache after it.
  unfoldable pub estimate_gas_cost_usd : GasAnswer → Bot D → ℤ × Option (ℤ × ℕ)
  estimate_gas_cost_usd a b =
      if cached_recently a.check b.gas_cache
      then (cached_cost b.gas_cache, b.gas_cache)
      else gas_cost_of a b.loaded b.gas_cache

  unfoldable pub min_profit_buffer : Signal D → Bot D → ℤ
  min_profit_buffer s b =
      let configured = configured_min_profit b.config.min_profit in
      let notional = trade_value s /ℤ pos 1_000 in
      let fee_buffer = s.expected_fees /ℤ pos 2 in
      let dynamic = if ltb_ℤ fee_buffer notional then notional else fee_buffer in
      if ltb_ℤ configured (pos 0)
      then configured
      else if ltb_ℤ dynamic configured
      then configured
      else dynamic

  -- Both updates run, also when the other one throws.
  unfoldable pub sync_balances : SyncAnswers → Bot D → Result (Unit {0}) × Bot D
  sync_balances a b =
      let from_cex = a.cex >>= λ balances. update_from_cex binance balances b.inventory in
      let t = updated_or b.inventory from_cex in
      let from_wallet = wallet_balances a b.base_pair b.quote_pair b.loaded >>= λ balances.
      update_from_wallet wallet balances t in
      (from_cex >> (from_wallet >>= λ _. ok tt), record b { inventory = updated_or t from_wallet })

  -- `status` reads the clock to prune the trades; the summary is sent before the reset.
  unfoldable pub maybe_daily_reset : ℕ → ℕ → Bot D → Bot D
  maybe_daily_reset now today b = if today == b.last_reset_day then b else record b {
    last_reset_day = today;
    risk_manager = reset_daily (prune_trade_window now b.risk_manager);
    daily_trade_count = 0;
    daily_net_pnl = pos 0;
    daily_wins = 0;
    daily_loss_alerted = false;
  }

  -- `verifyBalances` after the sync: the balances that were expected against those now.
  unfoldable pub balances_match : String → String → ℤ × ℤ → Bot D → Bool
  balances_match base quote (expected_base, expected_quote) b =
      let base_diff = distance (get_available wallet base b.inventory) expected_base in
      let quote_diff = distance (get_available binance quote b.inventory) expected_quote in
      not (
        not (leb_ℤ base_diff base_mismatch_threshold)
        || not (leb_ℤ quote_diff quote_mismatch_threshold))
