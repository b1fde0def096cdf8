-- ===== src/Base/Map.antt =====
-- `BTreeMap` and `BTreeSet`: association lists in the order of their keys.
mod Laws
mod Defs
mod Length
unfoldable pub use Defs.*
unfoldable pub use Laws.*
pub use Length.*
