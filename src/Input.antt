-- ===== src/Input.antt =====
-- `atria-input`: the normalization of what input devices report, apart from the reading of devices.
pub mod Key
pub mod Pipeline
mod Tests
