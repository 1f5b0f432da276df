-- ===== src/Ledger/Consistency.antt =====
-- What the ledger is between two operations: its indexes, and its log as a replay of them.
pub mod Persist
pub mod Events
pub mod Effects
pub mod Transitions
pub mod Plans
pub mod Runs
pub mod Steps
pub use Persist.{IsConsistent, HasRoom, new_ledger-IsConsistent, persist-IsConsistent}
