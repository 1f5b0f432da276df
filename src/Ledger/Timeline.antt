-- ===== src/Ledger/Timeline.antt =====
-- The events and checkpoints of a run: calod/crates/calod-ledger/src/ledger.rs.
use calod.Prelude.{Bool, Option, List, not, map, nat_eq}
use calod.Prelude.Int.{ℤ}
use calod.Prelude.Map.{get}
use calod.Ledger.Json.{Platform, canonical_json}
use calod.Ledger.Digest.{sha256_digest}
use calod.Ledger.Chain.{verify_event_chain}
use calod.Ledger.Model.{
  Uuid, Scope, schema_version_1, EventRecord, Event, CheckpointRecord, Checkpoint,
  AppendEventRequest, CreateCheckpointRequest, LedgerError, Field, Result, ok, event_view,
  checkpoint_view, ◌>>=◌, ◌>>◌,
}
use calod.Ledger.Indexes.{RecordKind, event_appended, checkpoint_created, entries_of}
use calod.Ledger.State.{Env, Ledger, run_in_scope, build_event}
use calod.Ledger.Validate.{validate_event_type}
use calod.Ledger.Transition.{guard}
use calod.Ledger.Runs.{commit, check_version, outside}

unfoldable pub append_event_plan :
    Platform → Env → Scope → Uuid → AppendEventRequest → Ledger → Result (RecordKind × Event)
append_event_plan p env scope run_id req l = do
  validate_event_type req.event_type
  run ← run_in_scope scope run_id l
  let event = build_event p env scope run req.event_type req.occurred_at_ms req.payload
  ok (event_appended event, event_view event)

unfoldable pub append_event :
    Platform → Env → Scope → Uuid → AppendEventRequest → Ledger → Result Event × Ledger
unfolding append_event_plan commit
append_event p env scope run_id req l = commit env (append_event_plan p env scope run_id req l) l

unfoldable pub run_events : Uuid → Ledger → List EventRecord
unfolding entries_of
run_events run_id l = entries_of (get run_id l.indexes.events)

unfoldable pub verify_run_events : Platform → Scope → Uuid → Ledger → Result Bool
unfolding run_events
verify_run_events p scope run_id l = do
  run ← run_in_scope scope run_id l
  ok (verify_event_chain p (map event_view (run_events run_id l)))

unfoldable pub new_checkpoint :
    Platform → Env → Scope → Uuid → CreateCheckpointRequest → CheckpointRecord
new_checkpoint p env scope run_id req = record {
  schema_version = schema_version_1;
  tenant_id = scope.tenant_id;
  project_id = scope.project_id;
  id = env.new_id;
  run_id = run_id;
  event_sequence = req.event_sequence;
  state = req.state;
  state_digest = sha256_digest p (canonical_json p req.state);
  created_at_ms = env.now;
}

unfoldable pub create_checkpoint_plan :
    Platform
    → Env
    → Scope
    → Uuid
    → CreateCheckpointRequest
    → Option ℤ
    → Ledger
    → Result (RecordKind × Checkpoint)
unfolding guard outside
create_checkpoint_plan p env scope run_id req expected_version l = do
  run ← run_in_scope scope run_id l
  check_version expected_version run
  guard (not (outside req.event_sequence run.last_event_sequence))
      (LedgerError.validation Field.event_sequence)
  let checkpoint = new_checkpoint p env scope run_id req
  ok (checkpoint_created checkpoint, checkpoint_view checkpoint)

unfoldable pub create_checkpoint :
    Platform
    → Env
    → Scope
    → Uuid
    → CreateCheckpointRequest
    → Option ℤ
    → Ledger
    → Result Checkpoint × Ledger
unfolding create_checkpoint_plan commit
create_checkpoint p env scope run_id req expected_version l =
    commit env (create_checkpoint_plan p env scope run_id req expected_version l) l
