-- ===== src/Store.antt =====
-- The store: the contract of a storage engine, and the pipeline that owns an engine and a session
-- index (crates/pardosa/src/store/engine.rs and crates/pardosa/src/store/pipeline.rs).
pub mod Engine
pub mod Pipeline
