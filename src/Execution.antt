-- ===== src/Execution.antt =====
-- The execution of one persisted orchestration plan.
pub mod Contracts
pub mod Preparation
pub mod World
pub mod Store
pub mod Materialize
pub mod Engine
pub mod Table
pub mod ValidSteps
pub mod Replacement
pub mod Hoare
pub mod Transactions
pub mod Writes
pub mod Lookup
pub mod Progress
pub mod Sweep
pub mod Operations
pub mod Working
pub mod Outcomes
pub mod Selections
pub mod Rounds
pub mod Loop
pub mod Termination
pub mod Agreement
pub mod Materialized
mod Samples
mod Tests
