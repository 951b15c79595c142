-- ===== src/Executor.antt =====
-- executor/: the recovery helpers and the engine.
pub mod CircuitBreaker
pub mod Replay
pub mod Engine
mod Tests
