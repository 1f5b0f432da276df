-- ===== src/Ledger/Model/Effects.antt =====
-- Effects: calod/crates/calod-ledger/src/model.rs.
use calod.Prelude.{ℕ, Bool, true, false, Option, none, some, Str, str}
use calod.Prelude.Int.{ℤ}
use calod.Ledger.Json.{Value}
use calod.Ledger.Timestamp.{format_timestamp}

abbrev pub Uuid : Type 0
Uuid = ℕ

abbrev pub schema_version_1 : ℕ
schema_version_1 = 1

pub record Scope : Type 0 where
  pub tenant_id : Str
  pub project_id : Str

pub data EffectStatus : Type 0 where
  claimed in_progress committed failed_retryable failed_terminal : EffectStatus
  outcome_unknown reconciled_committed reconciled_failed : EffectStatus

-- OpenAPI `EffectState`.
pub data EffectState : Type 0 where
  in_progress committed failed_retryable failed_terminal : EffectState
  outcome_unknown reconciled_committed reconciled_failed : EffectState

unfoldable pub api_state : EffectStatus → EffectState
api_state EffectStatus.claimed = EffectState.in_progress
api_state EffectStatus.in_progress = EffectState.in_progress
api_state EffectStatus.committed = EffectState.committed
api_state EffectStatus.failed_retryable = EffectState.failed_retryable
api_state EffectStatus.failed_terminal = EffectState.failed_terminal
api_state EffectStatus.outcome_unknown = EffectState.outcome_unknown
api_state EffectStatus.reconciled_committed = EffectState.reconciled_committed
api_state EffectStatus.reconciled_failed = EffectState.reconciled_failed

unfoldable pub is_retention_terminal : EffectStatus → Bool
is_retention_terminal EffectStatus.committed = true
is_retention_terminal EffectStatus.failed_terminal = true
is_retention_terminal EffectStatus.reconciled_committed = true
is_retention_terminal EffectStatus.reconciled_failed = true
is_retention_terminal _ = false

unfoldable pub effect_status_as_str : EffectStatus → Str
effect_status_as_str EffectStatus.claimed = str "claimed"
effect_status_as_str EffectStatus.in_progress = str "in_progress"
effect_status_as_str EffectStatus.committed = str "committed"
effect_status_as_str EffectStatus.failed_retryable = str "failed_retryable"
effect_status_as_str EffectStatus.failed_terminal = str "failed_terminal"
effect_status_as_str EffectStatus.outcome_unknown = str "outcome_unknown"
effect_status_as_str EffectStatus.reconciled_committed = str "reconciled_committed"
effect_status_as_str EffectStatus.reconciled_failed = str "reconciled_failed"

pub data EffectTransition : Type 0 where
  start renew commit fail_retryable fail_terminal mark_outcome_unknown : EffectTransition
  reconcile_committed reconcile_failed : EffectTransition

unfoldable pub is_worker_transition : EffectTransition → Bool
is_worker_transition EffectTransition.reconcile_committed = false
is_worker_transition EffectTransition.reconcile_failed = false
is_worker_transition _ = true

unfoldable pub effect_transition_as_str : EffectTransition → Str
effect_transition_as_str EffectTransition.start = str "start"
effect_transition_as_str EffectTransition.renew = str "renew"
effect_transition_as_str EffectTransition.commit = str "commit"
effect_transition_as_str EffectTransition.fail_retryable = str "fail_retryable"
effect_transition_as_str EffectTransition.fail_terminal = str "fail_terminal"
effect_transition_as_str EffectTransition.mark_outcome_unknown = str "mark_outcome_unknown"
effect_transition_as_str EffectTransition.reconcile_committed = str "reconcile_committed"
effect_transition_as_str EffectTransition.reconcile_failed = str "reconcile_failed"

pub data EffectDecisionType : Type 0 where
  execute replay wait reconcile : EffectDecisionType

pub record ExternalReceipt : Type 0 where
  pub provider : Str
  pub id : Str
  pub metadata : Option Value

pub record EffectFailure : Type 0 where
  pub kind : Str
  pub message : Str
  pub retryable : Bool

pub record EffectRecord : Type 0 where
  pub schema_version : ℕ
  pub tenant_id : Str
  pub project_id : Str
  pub id : Uuid
  pub run_id : Option Uuid
  pub scope : Str
  pub idempotency_key : Str
  pub tool_name : Str
  pub input_digest : Str
  pub state : EffectStatus
  pub fencing_token : ℤ
  pub lease_expires_at_ms : Option ℤ
  pub lease_duration_ms : ℤ
  pub lease_token_digest : Option Str
  pub result : Option Value
  pub external_receipt : Option ExternalReceipt
  pub failure : Option EffectFailure
  pub created_at_ms : ℤ
  pub updated_at_ms : ℤ

-- OpenAPI `Effect`. The lease is its only field, the rendered expiry.
pub record Effect : Type 0 where
  pub id : Uuid
  pub run_id : Option Uuid
  pub scope : Str
  pub idempotency_key : Str
  pub tool_name : Str
  pub input_digest : Str
  pub state : EffectState
  pub fencing_token : ℤ
  pub lease : Option Str
  pub result : Option Value
  pub external_receipt : Option ExternalReceipt
  pub failure : Option EffectFailure
  pub created_at : Str
  pub updated_at : Str

unfoldable pub render_lease : Option ℤ → Option Str
render_lease none = none
render_lease (some ms) = some (format_timestamp ms)

unfoldable pub effect_view : EffectRecord → Effect
unfolding render_lease
effect_view e = record {
  id = e.id;
  run_id = e.run_id;
  scope = e.scope;
  idempotency_key = e.idempotency_key;
  tool_name = e.tool_name;
  input_digest = e.input_digest;
  state = api_state e.state;
  fencing_token = e.fencing_token;
  lease = render_lease e.lease_expires_at_ms;
  result = e.result;
  external_receipt = e.external_receipt;
  failure = e.failure;
  created_at = format_timestamp e.created_at_ms;
  updated_at = format_timestamp e.updated_at_ms;
}

pub record EffectDecision : Type 0 where
  pub decision : EffectDecisionType
  pub effect : Effect
  pub lease_token : Option Str
  pub poll_after_ms : Option ℕ

pub record AcquireEffectRequest : Type 0 where
  pub run_id : Option Uuid
  pub scope : Str
  pub tool_name : Str
  pub input : Value
  pub lease_duration_seconds : Option ℕ
  pub downstream_idempotency_supported : Bool

pub record UpdateEffectRequest : Type 0 where
  pub transition : EffectTransition
  pub lease_token : Option Str
  pub fencing_token : ℤ
  pub lease_duration_seconds : Option ℕ
  pub result : Option Value
  pub external_receipt : Option ExternalReceipt
  pub failure : Option EffectFailure

pub record CallerCapabilities : Type 0 where
  pub can_reconcile : Bool
  pub can_admin : Bool
