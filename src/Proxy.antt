-- ===== src/Proxy.antt =====
-- crates/proxy: what an upstream's answers mean, when an upstream is held back, and the way of a
-- request from its admission through its dispatch to a late retrieval.
pub mod StatusPolicy
pub mod FailureBreaker
pub mod RateLimit
pub mod Clock
pub mod LedgerHandle
pub mod Dispatch
pub mod Digest
pub mod Admission
pub mod Retrieval
mod Tests
