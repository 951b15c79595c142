-- ===== src/Pricing.antt =====
-- pricing/: the constant-product pool, price impact and routing.
pub mod Calculator
pub mod Impact
pub mod Pair
pub mod Routing
pub mod Engine
mod Tests
