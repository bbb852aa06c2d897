-- ===== src/Admission.antt =====
-- crates/admission: when the pool of a day may be spent, and how much a request can consume.
pub mod Epoch
pub mod Liability
mod Tests
