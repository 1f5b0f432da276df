-- ===== src/Lib.antt =====
-- A model of Calod, a durable ledger of side effects with a RESP-compatible store beside it, and
-- theorems about it.
--
-- The program: clients (agents and workers) ask the ledger (calod/crates/calod-ledger) for the right
-- to execute an effect under an idempotency key, `acquire`, and report how it went, `transition`. An
-- effect may belong to a run, whose timeline is a hash chain of events; checkpoints and forks refer
-- to positions on it. Every mutation is one record of a write-ahead log (calod/crates/calod-storage),
-- appended and acknowledged before it is applied to the indexes in memory, and replayed at start. The
-- REST interface (calod/crates/calod-api) calls the ledger; the store (calod/crates/calod-core) and
-- its RESP server (calod/crates/calod-resp) stand beside it.
--
-- Prelude has tests, lists, maps, byte strings, and `i64` with its wrap-around.
--
-- The ledger, calod/crates/calod-ledger/src:
--   Ledger.Json      `serde_json::Value` and canonical JSON (digest.rs)
--   Ledger.Digest    hexadecimal and digests (digest.rs)
--   Ledger.Timestamp RFC 3339 rendering (digest.rs)
--   Ledger.Model     records, requests, views, state tables (model.rs) and errors (error.rs)
--   Ledger.Chain     hash chains of events (model.rs)
--   Ledger.Indexes   the indexes, the log records (record.rs) and how a record is applied (ledger.rs)
--   Ledger.State     the ledger's state, `persist` and the internals that operations share (ledger.rs)
--   Ledger.Validate  checks of request fields (ledger.rs)
--   Ledger.Acquire, Transition, Runs, Timeline, Retention   the operations (ledger.rs)
--   Ledger.Export    reading one effect and the evidence of one run (ledger.rs)
--   Ledger.Snapshot  the state of a snapshot, collected and loaded (ledger.rs, snapshot.rs)
--   Ledger.Calls     the calls that write, as data, and their step function
--   Ledger.Consistency   the invariant between calls
--   Ledger.Refusals      calls that answer with an error
--   Ledger.Lifecycle     what the calls do to one effect
--   Ledger.Race          two calls that overlap
--   Ledger.Tests         runs on small inputs
--
-- The write-ahead log, calod/crates/calod-storage/src/wal.rs:
--   Wal.Format       one record as bytes: `encode_record`, `parse_one`
--   Wal.Scan         `scan_segment`; Scan.Written is what a segment holds after whole writes
--   Wal.Directory    segment files by name, `list_segments`
--   Wal.Recover      `recover`, `replay_all`; Recover.Crash is about directories that a crash left
--   Wal.Writer       `open`, `append`, `roll_segment`, `truncate_before`; Writer.Durable is about a
--                    writer's whole life, Torn and Failures about file operations that fail
--   Wal.Tests        runs on small inputs
--
-- The data structures of the store, calod/crates/calod-core/src/store:
--   Store.F64        `f64` as a sign and the 63 bits below it, with `total_cmp` and the comparisons
--   Store.OrderedSet `BTreeSet` as an ascending list over any strict total order
--   Store.SortedSet  sorted sets (sorted_set.rs): the map, the index and the operations that change
--                    both; Keys has the order of entries, Ranges the ranges by position, score and
--                    member; Synced, Removals, Rebuilds, Ranks, Positions, Windows, StopBefore,
--                    Bounds and Reached prove
--   Store.Stream     streams (stream.rs); Ids has the ids and the maps they order, Groups consumer
--                    groups, Readers reading and acknowledging, Claims claiming; Owners, Joins, Keeps,
--                    Claimed, Delivered, Sound, Settled and Ascending carry the invariant, Histories
--                    the sequences of operations; Appends, Shared and SetBack prove more
--   Store.Watch      watched keys (watch.rs) and the check of EXEC; Watch.Holds is about a client that
--                    goes on watching a key
--   Store.Tests, Store.Stream.Tests, Store.Watch.Tests   runs on small inputs
-- The lock of a key's entry (DashMap) makes each of these operations one step.
-- The ledger takes the answers of this log as part of the environment of a call. In the log itself a
-- directory is a map from names to bytes, CRC32C a parameter of which only the width is assumed, and
-- the answers of the file system to a write, a flush or the creation of a file are arguments. A scan
-- has one round of fuel for each byte, and Wal.Scan.Ends is about that being enough. A file is shorter
-- than 2^63 bytes. What a successful write has written is taken to be in the file.
--
-- State is passed explicitly: an operation takes a ledger and returns a result and a ledger. A call
-- takes an `Env`: the time that it reads, the identifiers and the lease token that it draws, and the
-- answer of the log writer, so that every failure of the log is a case of the theorems. SHA-256, the
-- JSON escape of a string and the text of an identifier are the fields of `Platform`, about which
-- nothing is assumed. Byte strings are lists of numbers; an identifier is a number; a map is an
-- association list. Sums of `i64` wrap around, as in a release build. The loops of
-- the ledger are over lists and need no fuel.
--
-- A call is one step: the locks of the code (per key, per run, and the commit lock) serialize calls
-- on one key or run, and Ledger.Race is about two that overlap. A reachable ledger was opened
-- on an empty directory, and its calls drew fresh identifiers (they are UUIDs of version 7) while
-- every timeline was shorter than 2^63 events.
--
-- Not modelled: the serde encoding of records and snapshots, files, sockets and tasks; the texts of
-- error messages; the listing and statistics operations; the batches of the log writer's task and
-- their fsync; random members of a sorted set and the text of a score; the pending and info reports of
-- streams and the text of their ids; the shards, the rest of the RESP server and the REST interface.
pub mod Prelude
pub mod Ledger
pub mod Wal
pub mod Store
