-- ===== src/Compositor.antt =====
-- The crate atria-compositor: the state machine between decoded messages and a backend.
pub mod Model
pub mod Error
pub mod Request
pub mod Registry
pub mod Output
pub mod State
mod Tests
