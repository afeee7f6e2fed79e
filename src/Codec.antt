-- ===== src/Codec.antt =====
-- The JSON encodings of application/contracts/orchestration_execution.py.
pub mod Json
pub mod Plans
pub mod RoundTrip
pub mod Results
pub mod ResultRoundTrip
mod Tests
pub mod Reading
