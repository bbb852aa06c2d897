-- ===== src/Protocol.antt =====
-- crates/protocol: the requests that are let through, and the formats of the provider's API.
pub mod Json
pub mod Request
pub mod Responses
pub mod Sse
mod Tests
