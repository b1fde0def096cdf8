-- ===== src/Protocol.antt =====
-- The crate atria-protocol: the interface table, framing and primitive codecs, object
-- identifiers, versions, capabilities.
pub mod Interface
pub mod Error
pub mod Operations
pub mod Bytes
pub mod Wire
pub mod Capability
pub mod Version
mod Tests
