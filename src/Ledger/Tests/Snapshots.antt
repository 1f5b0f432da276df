-- ===== src/Ledger/Tests/Snapshots.antt =====
-- A snapshot of a small ledger.
use calod.Ledger.Indexes.{empty_indexes}
use calod.Ledger.Snapshot.{collect_state, load_state}
use calod.Ledger.Snapshot.Restore.{Restores, load_state-collect_state}
use calod.Ledger.Consistency.Steps.{Reach-IsConsistent}
use calod.Ledger.Tests.Reached.{with_commit-Reach}
use calod.Ledger.Tests.Data.{small_platform, with_commit}

load_state-collect_state_example :
    Restores with_commit.indexes (load_state (collect_state with_commit.indexes) empty_indexes)
load_state-collect_state_example =
    load_state-collect_state small_platform with_commit (Reach-IsConsistent with_commit-Reach)
