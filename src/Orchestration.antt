-- ===== src/Orchestration.antt =====
-- Root orchestration: the contracts of a decision and its validation into a plan.
pub mod Facts
pub mod Contracts
pub mod Validator
pub mod Order
pub mod CriticalPath
pub mod Synthesis
pub mod Acceptance
pub mod Failures
pub mod Tests
