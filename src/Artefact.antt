-- ===== src/Artefact.antt =====
-- Admission of an artefact and of its events, and their reader (crates/pardosa/src/store.rs).
pub mod Open
pub mod Precursor
pub mod Reader
