-- ===== src/Chain.antt =====
-- src/chain: the client of the chain's nodes, the fees and the transactions.
pub mod Retry
pub mod Gas
pub mod Client
pub mod Transaction
mod Tests
