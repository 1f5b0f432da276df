-- ===== src/Wal.antt =====
-- The write-ahead log: calod/crates/calod-storage/src/wal.rs.
pub mod Format
pub mod Scan
pub mod Directory
pub mod Recover
pub mod Writer
pub mod Tests
