-- ===== src/Ledger.antt =====
-- crates/ledger: the reservation ledger.
pub mod State
pub mod Error
pub mod Trust
pub mod Schema
pub mod Core
pub mod Store
pub mod Transitions
pub mod Sound
pub mod Reserve
pub mod Restart
pub mod Rollover
pub mod Requests
pub mod Queries
pub mod History
pub mod Tests
