-- ===== src/Ledger/Tests.antt =====
-- A small platform, requests and ledgers for the tests.
pub mod Data
pub mod Reached
pub mod Claims
pub mod Pruning
pub mod Refused
pub mod Snapshots
