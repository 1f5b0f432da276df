-- ===== src/Ledger.antt =====
-- The effect ledger: calod/crates/calod-ledger.
pub mod Json
pub mod Digest
pub mod Timestamp
pub mod Model
pub mod Chain
pub mod Indexes
pub mod State
pub mod Validate
pub mod Acquire
pub mod Transition
pub mod Runs
pub mod Timeline
pub mod Retention
pub mod Export
pub mod Snapshot
pub mod Calls
pub mod Lifecycle
pub mod Refusals
pub mod Race
pub mod Tests
pub mod Consistency
