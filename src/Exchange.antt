-- ===== src/Exchange.antt =====
-- exchange/: the trading rules of the exchange and the order book.
pub mod Rounding
pub mod OrderBook
pub mod Client
mod Tests
