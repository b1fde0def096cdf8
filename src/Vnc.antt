-- ===== src/Vnc.antt =====
-- `atria-vnc`: what a viewer did, kept for the compositor. The server is input and output.
pub mod Queue
mod Tests
