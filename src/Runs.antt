-- ===== src/Runs.antt =====
-- domain/runs.py: the contracts of a Run and its Steps, and their state machines.
pub mod States
pub mod Contracts
pub mod Transitions
pub mod Validity
pub mod StepValidity
pub mod Outcome
pub mod History
pub mod OutcomeLaws
pub mod Resolving
mod Tests
