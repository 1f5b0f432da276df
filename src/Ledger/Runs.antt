-- ===== src/Ledger/Runs.antt =====
-- Runs, their events and checkpoints: calod/crates/calod-ledger/src/ledger.rs.
use calod.Prelude.{
  ℕ, Bool, Option, none, some, List, [], ◌∷◌, ◌++◌, Str, str, ◌&&◌, ◌||◌, not, if◌then◌else◌,
  nat_beq, nat_eq,
}
use calod.Prelude.Int.{ℤ, pos, add_i64, eq_ℤ, ltb_ℤ}
use calod.Prelude.Map.{get}
use calod.Ledger.Digest.{genesis_hash}
use calod.Ledger.Model.{
  Uuid, Scope, schema_version_1, Run, RunRecord, RunStatus, CheckpointRecord, CreateRunRequest,
  UpdateRunRequest, ForkRunRequest, LedgerError, Field, Resource, Result, ok, err, run_view,
  is_terminal, run_status_as_str, ◌>>=◌, ◌>>◌,
}
use calod.Ledger.Indexes.{RecordKind, run_created, run_updated, entries_of}
use calod.Ledger.State.{Env, Ledger, persist, run_in_scope}
use calod.Ledger.Validate.{bad_length}
use calod.Ledger.Transition.{guard}

-- The result of `persist`, with the view that the operation returns.
unfoldable pub returning {ℓ} : {A : Type ℓ} → A → Result (Unit {0}) × Ledger → Result A × Ledger
returning view (ok _, l) = (ok view, l)
returning view (err e, l) = (err e, l)

-- The end of every operation here: the record that it decided on is persisted.
unfoldable pub commit {ℓ} :
    {A : Type ℓ} → Env → Result (RecordKind × A) → Ledger → Result A × Ledger
unfolding returning
commit env (err e) l = (err e, l)
commit env (ok (kind, view)) l = returning view (persist env kind l)

unfoldable pub new_run : Env → Scope → CreateRunRequest → RunRecord
new_run env scope req = record {
  schema_version = schema_version_1;
  tenant_id = scope.tenant_id;
  project_id = scope.project_id;
  id = env.new_id;
  external_id = req.external_id;
  agent_name = req.agent_name;
  status = RunStatus.running;
  version = pos 1;
  last_event_sequence = pos 0;
  head_hash = genesis_hash;
  parent_run_id = none;
  forked_from_event_sequence = none;
  metadata = req.metadata;
  created_at_ms = env.now;
  updated_at_ms = env.now;
}

unfoldable pub create_run_plan : Env → Scope → CreateRunRequest → Result (RecordKind × Run)
unfolding guard
create_run_plan env scope req = do
  guard (not (bad_length 255 req.external_id)) (LedgerError.validation Field.external_id)
  guard (not (bad_length 200 req.agent_name)) (LedgerError.validation Field.agent_name)
  let run = new_run env scope req
  ok (run_created run, run_view run)

unfoldable pub create_run : Env → Scope → CreateRunRequest → Ledger → Result Run × Ledger
unfolding create_run_plan commit
create_run env scope req l = commit env (create_run_plan env scope req) l

unfoldable pub get_run : Scope → Uuid → Ledger → Result Run
get_run scope run_id l = do run ← run_in_scope scope run_id l; ok (run_view run)

-- The `If-Match` check.
unfoldable pub check_version : Option ℤ → RunRecord → Result (Unit {0})
unfolding guard
check_version none run = ok tt
check_version (some expected) run =
    guard (eq_ℤ expected run.version) (LedgerError.precondition_failed expected run.version)

unfoldable pub run_status_tag : RunStatus → ℕ
run_status_tag RunStatus.running = 0
run_status_tag RunStatus.suspended = 1
run_status_tag RunStatus.completed = 2
run_status_tag RunStatus.failed = 3
run_status_tag RunStatus.cancelled = 4

-- A terminal status is final.
unfoldable pub check_status : RunStatus → RunRecord → Result (Unit {0})
unfolding guard run_status_tag
check_status status run =
    guard
      (not (
        is_terminal run.status
        && not (nat_beq (run_status_tag status) (run_status_tag run.status))))
      (LedgerError.invalid_transition (run_status_as_str run.status) (run_status_as_str status))

unfoldable pub updated_run : Env → RunStatus → RunRecord → RunRecord
updated_run env status run = record run {
  status = status;
  version = add_i64 run.version (pos 1);
  updated_at_ms = env.now;
}

unfoldable pub update_run_plan :
    Env → Scope → Uuid → UpdateRunRequest → Option ℤ → Ledger → Result (RecordKind × Run)
update_run_plan env scope run_id req expected_version l = do
  run ← run_in_scope scope run_id l
  check_version expected_version run
  check_status req.status run
  let next = updated_run env req.status run
  ok (run_updated next, run_view next)

unfoldable pub update_run :
    Env → Scope → Uuid → UpdateRunRequest → Option ℤ → Ledger → Result Run × Ledger
unfolding update_run_plan commit
update_run env scope run_id req expected_version l =
    commit env (update_run_plan env scope run_id req expected_version l) l

-- `checkpoints.iter().find(|c| c.id == id).map(|c| c.event_sequence)`
unfoldable pub checkpoint_sequence : Uuid → List CheckpointRecord → Option ℤ
checkpoint_sequence id [] = none
checkpoint_sequence id (c ∷ cs) =
    if nat_beq c.id id then some c.event_sequence else checkpoint_sequence id cs

unfoldable pub sequence_or_not_found : Uuid → Option ℤ → Result ℤ
sequence_or_not_found id none = err (LedgerError.not_found Resource.checkpoint id)
sequence_or_not_found id (some seq) = ok seq

-- `seq < 0 || seq > last`
unfoldable pub outside : ℤ → ℤ → Bool
outside seq last = ltb_ℤ seq (pos 0) || ltb_ℤ last seq

unfoldable pub fork_sequence : Option ℤ → Option Uuid → RunRecord → Uuid → Ledger → Result ℤ
unfolding guard checkpoint_sequence sequence_or_not_found outside entries_of
fork_sequence (some seq) none parent run_id l =
    if outside seq parent.last_event_sequence
    then err (LedgerError.validation Field.from_event_sequence)
    else ok seq
fork_sequence none (some id) parent run_id l =
    sequence_or_not_found id
      (checkpoint_sequence id (entries_of (get run_id l.indexes.checkpoints)))
fork_sequence _ _ parent run_id l = err (LedgerError.validation Field.from_event_sequence)

unfoldable pub forked_run : Env → Scope → ForkRunRequest → RunRecord → ℤ → RunRecord
forked_run env scope req parent sequence = record {
  schema_version = schema_version_1;
  tenant_id = scope.tenant_id;
  project_id = scope.project_id;
  id = env.new_id;
  external_id = parent.external_id ++ str ":fork";
  agent_name = parent.agent_name;
  status = RunStatus.running;
  version = pos 1;
  last_event_sequence = pos 0;
  head_hash = genesis_hash;
  parent_run_id = some parent.id;
  forked_from_event_sequence = some sequence;
  metadata = req.metadata;
  created_at_ms = env.now;
  updated_at_ms = env.now;
}

unfoldable pub check_reason : Str → Result (Unit {0})
unfolding guard
check_reason reason = guard (not (bad_length 500 reason)) (LedgerError.validation Field.reason)

unfoldable pub fork_run_plan :
    Env → Scope → Uuid → ForkRunRequest → Ledger → Result (RecordKind × Run)
fork_run_plan env scope run_id req l = do
  check_reason req.reason
  parent ← run_in_scope scope run_id l
  sequence ← fork_sequence req.from_event_sequence req.from_checkpoint_id parent run_id l
  let fork = forked_run env scope req parent sequence
  ok (run_created fork, run_view fork)

unfoldable pub fork_run : Env → Scope → Uuid → ForkRunRequest → Ledger → Result Run × Ledger
unfolding fork_run_plan commit
fork_run env scope run_id req l = commit env (fork_run_plan env scope run_id req l) l
