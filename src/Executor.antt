-- ===== src/Executor.antt =====
-- internal/runtime/executor: execution plans, their order, and the scheduling of their nodes.
pub mod Specs
pub mod Topology
pub mod Scheduler
pub mod Dispatch
pub mod Runs
