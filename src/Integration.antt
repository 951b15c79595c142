-- ===== src/Integration.antt =====
-- integration/: the loop of the bot on top of the components.
pub mod Records
pub mod ArbBot
pub mod ArbChecker
