-- ===== src/Requests.antt =====
-- application/services/runs.py and SqliteRunStore of adapters/outbound/persistence/sqlite/runs.py:
-- the creation of Runs, and their replay under an idempotency key.
pub mod Store
pub mod Service
pub mod Replay
pub mod Idempotency
mod Tests
pub mod Reception
pub mod Access
