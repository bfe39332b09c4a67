-- ===== src/Fiber.antt =====
-- Fibers: the lifecycle of crates/pardosa/src/store.rs, and the handle of
-- crates/pardosa/src/store/fiber_handle.rs.
pub mod State
pub mod Handle
