-- ===== src/Queue.antt =====
-- application/contracts/run_queue.py and the queue part of
-- adapters/outbound/persistence/sqlite/runs.py: claims, leases, cancellation and recovery.
pub mod Contracts
pub mod Events
pub mod Database
pub mod Store
pub mod Recovering
pub mod Service
pub mod Moves
pub mod Invariant
pub mod Writes
pub mod Exact
pub mod Order
pub mod Claiming
pub mod Cancelling
pub mod Cancelled
pub mod Settling
pub mod Requeueing
pub mod StepRecovery
pub mod Recovered
pub mod Recovery
pub mod Sorting
pub mod Expiry
pub mod Leases
pub mod Holding
pub mod Served
pub mod Safety
pub mod Samples
mod Tests
