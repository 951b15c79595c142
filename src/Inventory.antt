-- ===== src/Inventory.antt =====
-- inventory/: balances per venue, transfers between venues, and the ledger of trades.
pub mod Tracker
pub mod Rebalancer
pub mod Pnl
mod Tests
