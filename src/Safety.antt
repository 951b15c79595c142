-- ===== src/Safety.antt =====
-- safety/: the gates in front of an execution.
pub mod Check
pub mod Risk
pub mod Absolute
pub mod KillSwitch
pub mod Validator
mod Tests
