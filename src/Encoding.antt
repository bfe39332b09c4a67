-- ===== src/Encoding.antt =====
-- crates/pardosa/src/encoding.rs: the wire formats, one module for each part.
pub mod Envelope
