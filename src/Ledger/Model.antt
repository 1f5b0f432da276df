-- ===== src/Ledger/Model.antt =====
-- The domain types: calod/crates/calod-ledger/src/model.rs, and the errors of error.rs without
-- their texts for people. A `Uuid` is its 128-bit number, times are milliseconds.
mod Effects
mod Runs
mod Errors
unfoldable pub use Effects.*
unfoldable pub use Runs.*
unfoldable pub use Errors.*
