-- ===== src/Lib.antt =====
-- A model of the CEX-DEX arbitrage bot under src/: it watches the order book of an exchange (CEX)
-- and the pools of a decentralised one (DEX), and when the prices differ by more than the fees it
-- buys at one and sells at the other.
--
-- The parts, and how they interact
--   A signal generator compares the two prices and emits a signal (strategy/). The gates in front
--   of the execution may refuse it (safety/). The executor runs both legs of the trade through the
--   client of the exchange and the client of the chain, unwinds the first leg when the second does
--   not fill, and books the trades (executor/). The generator, the gates and the executor read the
--   balances of one inventory tracker, which the executor's booking writes (inventory/). Pools,
--   price impact and routes are pricing/; the exchange's rules for quantities and the order book
--   are exchange/.
--
-- Which file models what
--   Prelude, Prelude/*: shared names. Int is JavaScript's bigint with the division that truncates
--     towards zero; Result is code that may throw; Dict is a Map in insertion order; Double is the
--     interface of IEEE numbers; Lists and Tests are lists, Boolean tests and case splits.
--   Core: src/core/core.types.ts, core.constants.ts (Address, Token, PRICE_SCALE).
--   Pricing/Calculator: src/pricing/uniswap-v2/uniswap-v2.calculator.ts (getAmountOut, getAmountIn,
--     getSpotPrice, getExecutionPrice, getPriceImpact). Its children are proofs.
--   Pricing/Pair: uniswap-v2.service.ts (UniswapV2Pair: simulateSwap, quote and the rest).
--   Pricing/Impact: uniswap-v2.analyzer.ts (findMaxSizeForImpact, estimateTrueCost, the table).
--   Pricing/Routing: src/pricing/routing/routing.service.ts (Route, RouteFinder).
--   Pricing/Engine: src/pricing/engine/engine.service.ts, engine.types.ts (PricingEngine, Quote).
--   Exchange/Rounding: src/exchange/cexClient/exchange.utils.ts.
--   Exchange/OrderBook: src/exchange/orderBook/orderBook.analyzer.ts (walkTheBook and the rest).
--   Exchange/Client: src/exchange/cexClient/exchange.client.ts (the weights of the REST calls of
--     ExchangeClient). Answers is what the calls return, Stream the WebSocket.
--   Inventory/Tracker: src/inventory/tracker/tracker.service.ts (InventoryTracker).
--   Inventory/Rebalancer: src/inventory/rebalancer/rebalancer.service.ts (RebalancePlanner).
--   Inventory/Pnl: src/inventory/pnl/pnl.service.ts, pnl.interfaces.ts (PnLEngine).
--   Strategy/Signal, Strategy/Fees, Strategy/Generator: src/strategy/signal.interfaces.ts,
--     fee.calculator.ts, signal.generator.ts (generate, and each private method).
--   Strategy/Levels: the parts of signal.generator.ts that are functions of what they are given
--     (candidateSizes, computePricesAt, estimateNetPnl, the loop of findBestPrices, the direction).
--   Strategy/Scorer: src/strategy/scorer/scorer.service.ts (SignalScorer).
--   Safety/Risk: src/safety/risk.service.ts, risk.constants.ts (RiskManager).
--   Safety/Absolute: src/safety/safety.constants.ts (absoluteSafetyCheck).
--   Safety/KillSwitch: src/safety/kill.switch.ts. Safety/Validator: pre.trade.validator.ts.
--   Safety/Check: risk.interfaces.ts.
--   Executor/CircuitBreaker, Executor/Replay: src/executor/recovery/recovery.service.ts.
--   Executor/Engine: src/executor/engine/engine.service.ts. Context is the state, Legs the two
--     kinds of leg, Unwind the unwinding, Booking recordTrades and calculatePnl, Run
--     executeCexFirst, executeDexFirst and execute.
--   Integration/Records: src/integration/arbBot/arb_bot.utils.ts (the ledger entries).
--   Integration/ArbBot: src/integration/arbBot/arb_bot.service.ts (ArbBot), arb_bot.constants.ts.
--     The file itself is the state and the methods that do not wait in between; Gates is
--     checkSafetyGates, Decide generateAndFilterSignal, runRiskChecks and runDryRun, Trade
--     executeReal and verifyBalances, Events what run registers. Flight says what a tick waits for.
--   Integration/ArbChecker: src/integration/arbChecker/arbChecker.service.ts (check).
--   Strategy/Service: src/strategy/signal.service.ts (create).
--   Chain/Retry, Chain/Client: src/chain/chain.client.ts, chain.utils.ts (ChainClient, withRetry,
--     isRetryable, waitForReceipt).
--   Chain/Gas: src/chain/gas.calculator.ts (GasPrice), and the sampling in getGasPrice.
--   Chain/Transaction: src/chain/transaction.service.ts (TransactionBuilder).
--   A module Tests below a component evaluates its theorems on concrete inputs.
--
-- How the code corresponds to the definitions
--   An object is a record of its fields; a method takes the record and returns the new one, with
--   what it answers. A method that may throw returns a result. Every reading of Date.now() is an
--   argument of its own, since two readings in one method may differ. A bigint is a signed integer
--   with no bound, as in JavaScript. A number that stands for a count or a time is a natural
--   number. A number that is a fraction is of a type D, whose operations (Prelude/Double) are a
--   parameter: what is proved holds whatever the rounding. The tests take D to be numbers of three
--   decimals.
--   The clients of the exchange and of the chain are one interface (Clients of
--   Executor/Engine/Context): what a call answers is given, and every definition returns the
--   requests it sends. A leg that is late (withTimeout) gives no result, but its requests are sent.
--   Market of Strategy/Generator is the same for one call of the generator.
--   Error messages and reasons are constructors, without the amounts formatted into them.
--   Logging is left out.
--
--   The bot runs on an event loop: a tick is cut where it waits for the decision, for the trade and
--   for the sync, and between these parts any other handler may run (Events). Within a part the
--   waits for quotes, orders and receipts do not interleave with other handlers. The objects the
--   parts share are fields of the bot, which the generator, the executor and the planner are given
--   where they run.
--
-- Loops and fuel
--   Loops over arrays are structural recursion. The binary search of findMaxSizeForImpact takes
--   fuel: each round halves the distance between its bounds, which start at 1 and the reserve, so
--   one more than the reserve is enough. The search for routes recurses on the hops still allowed.
--   The wait for a receipt takes one round more than its milliseconds as fuel, which is enough when
--   the clock advances from round to round. The planning loop of the rebalancer runs on fuel, which
--   is an argument, since the code's loop has no bound of its own.
--
-- Not modelled
--   The RPC, ccxt and WebSocket calls, the wallet, serialisation, configuration, notifications and
--   the command-line scripts are input and output. Methods that only format or log are left out.
--   Of the bot, the start before run registers its handlers (initialize), the messages and the log
--   of the rebalance plans are left out.
--   The mempool monitor and the fork simulator are not part of this model: what they answer is given.
--   The limit on the weights and the stream of the exchange client are modelled on their own: what a
--   client answers in an execution is given to the executor.
pub mod Prelude
pub mod Core
pub mod Chain
pub mod Exchange
pub mod Executor
pub mod Integration
pub mod Inventory
pub mod Pricing
pub mod Safety
pub mod Strategy
