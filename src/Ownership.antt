-- ===== src/Ownership.antt =====
-- Ownership of an artefact: the records of its ownership log, the claims with their epochs, and the
-- creation protocol (crates/pardosa/src/encoding.rs and crates/pardosa/src/store.rs).
pub mod Record
pub mod Claim
pub mod Creation
