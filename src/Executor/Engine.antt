-- ===== src/Executor/Engine.antt =====
-- executor/engine/: the context of an execution, the legs, the unwinding, the booking, and `execute`.
pub mod Context
pub mod Legs
pub mod Unwind
pub mod Booking
pub mod Run
mod Tests
