-- ===== src/Ledger/Model/Runs.antt =====
-- Runs, events, checkpoints and filters: calod/crates/calod-ledger/src/model.rs.
use calod.Prelude.{ℕ, Bool, true, false, Option, Str, List, str}
use calod.Prelude.Int.{ℤ}
use calod.Ledger.Json.{Value}
use calod.Ledger.Timestamp.{format_timestamp}
use calod.Ledger.Model.Effects.{Uuid, Effect}

pub data RunStatus : Type 0 where
  running suspended completed failed cancelled : RunStatus

unfoldable pub is_terminal : RunStatus → Bool
is_terminal RunStatus.running = false
is_terminal RunStatus.suspended = false
is_terminal RunStatus.completed = true
is_terminal RunStatus.failed = true
is_terminal RunStatus.cancelled = true

unfoldable pub run_status_as_str : RunStatus → Str
run_status_as_str RunStatus.running = str "running"
run_status_as_str RunStatus.suspended = str "suspended"
run_status_as_str RunStatus.completed = str "completed"
run_status_as_str RunStatus.failed = str "failed"
run_status_as_str RunStatus.cancelled = str "cancelled"

pub record RunRecord : Type 0 where
  pub schema_version : ℕ
  pub tenant_id : Str
  pub project_id : Str
  pub id : Uuid
  pub external_id : Str
  pub agent_name : Str
  pub status : RunStatus
  pub version : ℤ
  pub last_event_sequence : ℤ
  pub head_hash : Str
  pub parent_run_id : Option Uuid
  pub forked_from_event_sequence : Option ℤ
  pub metadata : Option Value
  pub created_at_ms : ℤ
  pub updated_at_ms : ℤ

pub record Run : Type 0 where
  pub id : Uuid
  pub external_id : Str
  pub agent_name : Str
  pub status : RunStatus
  pub version : ℤ
  pub last_event_sequence : ℤ
  pub parent_run_id : Option Uuid
  pub forked_from_event_sequence : Option ℤ
  pub metadata : Option Value
  pub created_at : Str
  pub updated_at : Str

unfoldable pub run_view : RunRecord → Run
run_view r = record {
  id = r.id;
  external_id = r.external_id;
  agent_name = r.agent_name;
  status = r.status;
  version = r.version;
  last_event_sequence = r.last_event_sequence;
  parent_run_id = r.parent_run_id;
  forked_from_event_sequence = r.forked_from_event_sequence;
  metadata = r.metadata;
  created_at = format_timestamp r.created_at_ms;
  updated_at = format_timestamp r.updated_at_ms;
}

pub record CreateRunRequest : Type 0 where
  pub external_id : Str
  pub agent_name : Str
  pub metadata : Option Value

pub record UpdateRunRequest : Type 0 where
  pub status : RunStatus

pub record ForkRunRequest : Type 0 where
  pub from_event_sequence : Option ℤ
  pub from_checkpoint_id : Option Uuid
  pub reason : Str
  pub metadata : Option Value

pub record EventRecord : Type 0 where
  pub schema_version : ℕ
  pub tenant_id : Str
  pub project_id : Str
  pub id : Uuid
  pub run_id : Uuid
  pub sequence : ℤ
  pub event_type : Str
  pub occurred_at_ms : ℤ
  pub recorded_at_ms : ℤ
  pub payload : Value
  pub previous_hash : Str
  pub hash : Str

pub record Event : Type 0 where
  pub id : Uuid
  pub run_id : Uuid
  pub sequence : ℤ
  pub event_type : Str
  pub occurred_at : Str
  pub recorded_at : Str
  pub payload : Value
  pub previous_hash : Str
  pub hash : Str

unfoldable pub event_view : EventRecord → Event
event_view e = record {
  id = e.id;
  run_id = e.run_id;
  sequence = e.sequence;
  event_type = e.event_type;
  occurred_at = format_timestamp e.occurred_at_ms;
  recorded_at = format_timestamp e.recorded_at_ms;
  payload = e.payload;
  previous_hash = e.previous_hash;
  hash = e.hash;
}

pub record AppendEventRequest : Type 0 where
  pub event_type : Str
  pub occurred_at_ms : ℤ
  pub payload : Value

pub record CheckpointRecord : Type 0 where
  pub schema_version : ℕ
  pub tenant_id : Str
  pub project_id : Str
  pub id : Uuid
  pub run_id : Uuid
  pub event_sequence : ℤ
  pub state : Value
  pub state_digest : Str
  pub created_at_ms : ℤ

pub record Checkpoint : Type 0 where
  pub id : Uuid
  pub run_id : Uuid
  pub event_sequence : ℤ
  pub state : Value
  pub state_digest : Str
  pub created_at : Str

unfoldable pub checkpoint_view : CheckpointRecord → Checkpoint
checkpoint_view c = record {
  id = c.id;
  run_id = c.run_id;
  event_sequence = c.event_sequence;
  state = c.state;
  state_digest = c.state_digest;
  created_at = format_timestamp c.created_at_ms;
}

pub record CreateCheckpointRequest : Type 0 where
  pub event_sequence : ℤ
  pub state : Value

pub record RetentionPolicy : Type 0 where
  pub max_age_ms : ℤ

pub record RetentionReport : Type 0 where
  pub runs_removed : ℕ
  pub effects_removed : ℕ
  pub events_removed : ℕ
  pub cutoff_ms : ℤ

pub record RunExport : Type 0 where
  pub run : Run
  pub effects : List Effect
  pub events : List Event
  pub checkpoints : List Checkpoint
