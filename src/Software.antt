-- ===== src/Software.antt =====
-- `atria-software-output`: the buffers and frames that pixels are copied between.
pub mod Buffer
pub mod Copy
mod Tests
