-- ===== src/Resilience.antt =====
-- The composition of the patterns, pkg/resilience.
pub mod Chain
pub mod Executor
pub mod Frame
pub mod Balance
pub mod Options
