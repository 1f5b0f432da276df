-- ===== src/Store.antt =====
-- The data structures of the store: calod/crates/calod-core/src/store.
pub mod F64
pub mod OrderedSet
pub mod SortedSet
pub mod Stream
pub mod Watch
mod Tests
