-- ===== src/File.antt =====
-- The files of an artefact, a `.meta` and a `.pgno` container, of crates/pardosa/src/file.rs.
pub mod System
pub mod Meta
pub mod Engine
