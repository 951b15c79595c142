-- ===== src/Pricing/Engine.antt =====
-- pricing/engine/: `PricingEngine` and `Quote`. What the chain answers for a pool and what the fork
-- simulates are given. The map of pools is keyed by the address, in insertion order; the counters of
-- the log are left out.
pub mod Current
mod Tests
use internship_project_peanu.Prelude.{
  ℕ, ◌==◌, Bool, true, false, not, ◌&&◌, ◌||◌, Option, none, some, List, [], ◌∷◌, map, length,
  String, if◌then◌else◌,
}
use internship_project_peanu.Prelude.Int.{ℤ, pos, ◌-ℤ◌, ◌*ℤ◌, ltb_ℤ, leb_ℤ}
use internship_project_peanu.Prelude.Result.{Error, Result, ok, err, quote_failed, ◌>>=◌}
use internship_project_peanu.Core.{Address, Token, equals}
use internship_project_peanu.Pricing.Calculator
use internship_project_peanu.Pricing.Pair.{UniswapV2Pair}
use internship_project_peanu.Pricing.Routing.{
  Route, RouteFinder, new_finder, update_pool, find_best_route,
}

pub record PricingEngine : Type 0 where
  pub pools : List UniswapV2Pair
  pub router : Option RouteFinder
  pub pool_monitor_running : Bool

-- `pools.set(pair.address.lower, pair)`
unfoldable pub put_pool : UniswapV2Pair → List UniswapV2Pair → List UniswapV2Pair
put_pool u [] = u ∷ []
put_pool u (p ∷ ps) =
    let later = put_pool u ps in if equals p.address u.address then u ∷ ps else p ∷ later

-- `pools.get(address.lower)`
unfoldable pub find_pool : Address → List UniswapV2Pair → Option UniswapV2Pair
find_pool a [] = none
find_pool a (p ∷ ps) = let later = find_pool a ps in if equals p.address a then some p else later

-- The constructor of `RouteFinder` with its defaults.
abbrev pub finder_of : List UniswapV2Pair → RouteFinder
finder_of pools = new_finder pools (pos 150_000) (pos 100_000)

abbrev pub put_pools : List UniswapV2Pair → List UniswapV2Pair → List UniswapV2Pair
put_pools [] ps = ps
put_pools (u ∷ us) ps = put_pools us (put_pool u ps)

abbrev pub patched : UniswapV2Pair → Option RouteFinder → Option RouteFinder
patched u none = none
patched u (some r) = some (update_pool u r)

-- A pool that was read enters the map and, if there is a router, the route graph.
unfoldable pub set_pool : UniswapV2Pair → PricingEngine → PricingEngine
set_pool u e = record e { pools = put_pool u e.pools; router = patched u e.router }

abbrev pub set_pools : List UniswapV2Pair → PricingEngine → PricingEngine
set_pools [] e = e
set_pools (u ∷ us) e = set_pools us (set_pool u e)

unfoldable pub load_pools :
    Result (List UniswapV2Pair) → PricingEngine → Result (Unit {0}) × PricingEngine
load_pools (err x) e = (err x, e)
load_pools (ok pairs) e =
    let pools = put_pools pairs e.pools in
    (ok tt, record e { pools = pools; router = some (finder_of pools) })

unfoldable pub refresh_pool :
    Result UniswapV2Pair → PricingEngine → Result (Unit {0}) × PricingEngine
refresh_pool (err x) e = (err x, e)
refresh_pool (ok pair) e = (ok tt, set_pool pair e)

unfoldable pub refresh_pools :
    Result (List UniswapV2Pair) → PricingEngine → Result (Unit {0}) × PricingEngine
refresh_pools (err x) e = (err x, e)
refresh_pools (ok pairs) e = (ok tt, set_pools pairs e)

-- A Sync event with both reserves.
abbrev pub synced_pool : Option UniswapV2Pair → ℤ → ℤ → PricingEngine → PricingEngine
synced_pool none r0 r1 e = e
synced_pool (some existing) r0 r1 e = set_pool (record existing { reserve0 = r0; reserve1 = r1 }) e

unfoldable pub on_sync : Address → Option ℤ → Option ℤ → PricingEngine → PricingEngine
on_sync a none r1 e = e
on_sync a (some r0) none e = e
on_sync a (some r0) (some r1) e = synced_pool (find_pool a e.pools) r0 r1 e

-- The subscription itself is the library's; a stop ends it.
abbrev pub monitored : Result (Unit {0}) × PricingEngine → Result (Unit {0}) × PricingEngine
monitored (err x, e) = (err x, e)
monitored (ok done, e) = (ok done, record e { pool_monitor_running = true })

unfoldable pub start_pool_monitor :
    List Address → Result (List UniswapV2Pair) → PricingEngine → Result (Unit {0}) × PricingEngine
start_pool_monitor addresses fetched e =
    if e.pool_monitor_running
    then (err (quote_failed "Pool monitor is already running"), e)
    else if length addresses == 0
    then (err (quote_failed "Pool monitor needs at least one pool"), e)
    else monitored (refresh_pools fetched e)

abbrev pub stop_pool_monitor : PricingEngine → PricingEngine
stop_pool_monitor e = record e { pool_monitor_running = false }

pub record Quote : Type 0 where
  pub route : Route
  pub amount_in : ℤ
  pub expected_output : ℤ
  pub simulated_output : ℤ
  pub gas_estimate : ℤ
  pub timestamp : ℕ
  pub slippage_tolerance_bps : ℤ

unfoldable pub is_valid : Quote → Bool
is_valid q =
    let diff = q.expected_output -ℤ q.simulated_output in
    if leb_ℤ q.expected_output q.simulated_output
    then true
    else ltb_ℤ (diff *ℤ pos 10_000) (q.expected_output *ℤ q.slippage_tolerance_bps)

pub record SimulationResult : Type 0 where
  pub success : Bool
  pub amount_out : ℤ
  pub gas_used : ℤ

-- Any error of the search is the same to the caller.
abbrev pub or_no_route : {A : Type 0} → Result A → Result A
or_no_route (ok a) = ok a
or_no_route (err x) = err (quote_failed "No route found")

-- The best route over at most three hops, for the router that is loaded.
abbrev pub best_route : Option RouteFinder → Token → Token → ℤ → ℤ → Result (Route × ℤ)
best_route none token_in token_out amount_in gas_price = err (quote_failed "No pools loaded")
best_route (some r) token_in token_out amount_in gas_price =
    or_no_route (find_best_route r token_in token_out amount_in gas_price 3 Calculator.price_scale)

abbrev pub quote_of : ℤ → ℕ → Route × ℤ → SimulationResult → Result Quote
quote_of amount_in now (route, expected) sim =
    if not sim.success
    then err (quote_failed "Simulation failed")
    else ok (record {
      route = route;
      amount_in = amount_in;
      expected_output = expected;
      simulated_output = sim.amount_out;
      gas_estimate = sim.gas_used;
      timestamp = now;
      slippage_tolerance_bps = pos 100;
    })

unfoldable pub get_quote :
    (Route → ℤ → Address → SimulationResult)
    → ℕ
    → Token
    → Token
    → ℤ
    → ℤ
    → Address
    → PricingEngine
    → Result Quote
get_quote simulate now token_in token_out amount_in gas_price sender e =
    best_route e.router token_in token_out amount_in gas_price >>= λ best.
    quote_of amount_in now best (simulate best.0 amount_in sender)

unfoldable pub get_amm_quote : Token → Token → ℤ → PricingEngine → Result ℤ
get_amm_quote token_in token_out amount_in e =
    best_route e.router token_in token_out amount_in (pos 0) >>= λ best. ok best.1

-- `onMempoolSwap`: the addresses of the pools that are read again.
abbrev pub touches : Option Address → UniswapV2Pair → Bool
touches none p = false
touches (some a) p = equals p.token0.address a || equals p.token1.address a

unfoldable pub affected : Option Address → Option Address → List UniswapV2Pair → List Address
affected token_in token_out [] = []
affected token_in token_out (p ∷ ps) =
    let rest = affected token_in token_out ps in
    if touches token_in p || touches token_out p then p.address ∷ rest else rest
