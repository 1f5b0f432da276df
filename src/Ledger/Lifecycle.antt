-- ===== src/Ledger/Lifecycle.antt =====
-- The life of one effect across calls: what `acquire` decides, what a grant stores, who may move the
-- state machine, and which states are final.
pub mod Stored
pub mod Plans
pub mod Decisions
pub mod Grants
pub mod Authority
pub mod Edges
pub mod Moves
pub mod Final
