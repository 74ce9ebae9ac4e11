-- ===== src/Plan.antt =====
-- go-core/internal/kernel/advanced_planner.go: the scheduling of a parallel plan and its execution.
pub mod Schedule
pub mod Executor
pub mod Tasks
pub mod Policy
pub mod Planner
