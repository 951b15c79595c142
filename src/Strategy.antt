-- ===== src/Strategy.antt =====
-- strategy/: signals, fees and signal generation.
pub mod Signal
pub mod Fees
pub mod Levels
pub mod Generator
pub mod Scorer
pub mod Service
mod Tests
