-- ===== src/Ledger/Acquire.antt =====
-- `Ledger::acquire`: calod/crates/calod-ledger/src/ledger.rs.
use calod.Prelude.{
  ℕ, zero, suc, false, Option, none, some, Str, str, str_eq, ◌||◌, not, if◌then◌else◌,
}
use calod.Prelude.Int.{ℤ, pos, negsuc, add_i64, sub_i64, ltb_ℤ}
use calod.Prelude.Map.{get}
use calod.Prelude.{nat_eq}
use calod.Ledger.Json.{Platform, Value, null, string, object, field, done}
use calod.Ledger.Digest.{sha256_digest, input_digest}
use calod.Ledger.Model.{
  Uuid, Scope, schema_version_1, EffectStatus, EffectFailure, EffectRecord, EffectDecision,
  EffectDecisionType, AcquireEffectRequest, EventRecord, LedgerError, Result, ok, err, effect_view,
  ◌>>=◌, ◌>>◌,
}
use calod.Ledger.Indexes.{Indexes, EffectKey, key_eq, effect_applied}
use calod.Ledger.State.{
  Env, Ledger, bump_acquire, persist, run_in_scope, resolve_lease_ms, build_effect_event,
}
use calod.Ledger.Validate.{validate_effect_fields}

-- What `acquire` decided, and what must be persisted.
pub data Plan : Type 0 where
  decide : EffectDecision → Plan
  apply_effect : EffectRecord → Str → Value → EffectDecisionType → Option Str → Plan

-- A new lease epoch: `claimed`, the next fencing token, a fresh lease token.
unfoldable pub reacquire :
    Platform → Env → AcquireEffectRequest → ℤ → EffectRecord → EffectRecord × Option Str
reacquire p env req lease_ms effect = (
  record effect {
    state = EffectStatus.claimed;
    fencing_token = add_i64 effect.fencing_token (pos 1);
    lease_expires_at_ms = some (add_i64 env.now lease_ms);
    lease_duration_ms = lease_ms;
    lease_token_digest = some (sha256_digest p env.lease_token);
    tool_name = req.tool_name;
    updated_at_ms = env.now;
  },
  some env.lease_token,
)

-- `u64::try_from(ms).unwrap_or(0).max(1)`
unfoldable pub poll_delay : ℤ → ℕ
poll_delay (pos zero) = 1
poll_delay (pos (suc n)) = suc n
poll_delay (negsuc n) = 1

unfoldable pub wait_decision : EffectRecord → ℤ → ℤ → EffectDecision
unfolding poll_delay
wait_decision effect expires_ms now = record {
  decision = EffectDecisionType.wait;
  effect = effect_view effect;
  lease_token = none;
  poll_after_ms = some (poll_delay (sub_i64 expires_ms now));
}

unfoldable pub read_decision : EffectDecisionType → EffectRecord → EffectDecision
read_decision decision effect = record {
  decision = decision;
  effect = effect_view effect;
  lease_token = none;
  poll_after_ms = none;
}

-- `{ "from": from, "to": to }`
unfoldable pub from_to : Value → Str → Value
from_to from to = object (field (str "from") from (field (str "to") (string to) done))

-- `{ "from": from, "to": to, "reason": "lease_expired" }`
unfoldable pub from_to_expired : Str → Str → Value
from_to_expired from to = object (
    field (str "from") (string from)
      (field (str "to") (string to) (field (str "reason") (string (str "lease_expired")) done)))

unfoldable pub reacquire_plan : Value → EffectRecord × Option Str → Plan
reacquire_plan detail (effect, token) =
    apply_effect effect (str "effect.reacquired") detail EffectDecisionType.execute token

unfoldable pub failure_or : EffectFailure → Option EffectFailure → Option EffectFailure
failure_or default none = some default
failure_or default (some f) = some f

unfoldable pub expires_or : ℤ → Option ℤ → ℤ
expires_or now none = now
expires_or now (some ms) = ms

unfoldable pub lease_expired_failure : EffectFailure
lease_expired_failure = record {
  kind = str "lease_expired_in_progress";
  message = str "Lease expired while in progress; outcome cannot be proven";
  retryable = false;
}

-- An effect whose lease expired while the tool may have fired.
unfoldable pub expired_in_progress : Env → EffectRecord → EffectRecord
unfolding failure_or
expired_in_progress env effect = record effect {
  state = EffectStatus.outcome_unknown;
  lease_expires_at_ms = none;
  lease_token_digest = none;
  updated_at_ms = env.now;
  failure = failure_or lease_expired_failure effect.failure;
}

unfoldable pub new_effect : Platform → Env → Scope → Str → AcquireEffectRequest → ℤ → EffectRecord
new_effect p env scope idempotency_key req lease_ms = record {
  schema_version = schema_version_1;
  tenant_id = scope.tenant_id;
  project_id = scope.project_id;
  id = env.new_id;
  run_id = req.run_id;
  scope = req.scope;
  idempotency_key = idempotency_key;
  tool_name = req.tool_name;
  input_digest = input_digest p req.input;
  state = EffectStatus.claimed;
  fencing_token = pos 1;
  lease_expires_at_ms = some (add_i64 env.now lease_ms);
  lease_duration_ms = lease_ms;
  lease_token_digest = some (sha256_digest p env.lease_token);
  result = none;
  external_receipt = none;
  failure = none;
  created_at_ms = env.now;
  updated_at_ms = env.now;
}

-- `if let Some(run_id) = req.run_id { self.run_in_scope(scope, run_id)?; }`
unfoldable pub check_run : Scope → Option Uuid → Ledger → Result (Unit {0})
unfolding run_in_scope
check_run scope none l = ok tt
check_run scope (some run_id) l = do run ← run_in_scope scope run_id l; ok tt

module _ (p : Platform) (env : Env) (scope : Scope) (idempotency_key : Str)
    (req : AcquireEffectRequest) (lease_ms : ℤ) where
  -- The match on the state of an effect that is there and was asked for with the same input.
  unfoldable pub plan_state : EffectStatus → EffectRecord → Plan
  unfolding reacquire wait_decision read_decision from_to from_to_expired reacquire_plan expires_or
      expired_in_progress
  plan_state EffectStatus.committed effect = decide (read_decision EffectDecisionType.replay effect)
  plan_state EffectStatus.reconciled_committed effect =
      decide (read_decision EffectDecisionType.replay effect)
  plan_state EffectStatus.failed_terminal effect =
      decide (read_decision EffectDecisionType.replay effect)
  plan_state EffectStatus.reconciled_failed effect =
      decide (read_decision EffectDecisionType.replay effect)
  plan_state EffectStatus.outcome_unknown effect =
      decide (read_decision EffectDecisionType.reconcile effect)
  plan_state EffectStatus.failed_retryable effect =
      reacquire_plan (from_to (string (str "failed_retryable")) (str "claimed"))
        (reacquire p env req lease_ms effect)
  plan_state EffectStatus.claimed effect =
      let expires = expires_or env.now effect.lease_expires_at_ms in
      if ltb_ℤ env.now expires
      then decide (wait_decision effect expires env.now)
      else reacquire_plan (from_to_expired (str "claimed") (str "claimed"))
          (reacquire p env req lease_ms effect)
  plan_state EffectStatus.in_progress effect =
      let expires = expires_or env.now effect.lease_expires_at_ms in
      if ltb_ℤ env.now expires
      then decide (wait_decision effect expires env.now)
      else apply_effect (expired_in_progress env effect) (str "effect.outcome_unknown")
          (from_to_expired (str "in_progress") (str "outcome_unknown")) EffectDecisionType.reconcile
          none

  unfoldable pub plan_existing : EffectRecord → Result Plan
  unfolding plan_state
  plan_existing effect =
      if not (str_eq effect.input_digest (input_digest p req.input))
        || not (str_eq effect.tool_name req.tool_name)
      then err (
          LedgerError.idempotency_conflict req.scope idempotency_key effect.input_digest
            (input_digest p req.input))
      else ok (plan_state effect.state effect)

  unfoldable pub new_plan : Plan
  unfolding new_effect from_to
  new_plan =
      apply_effect (new_effect p env scope idempotency_key req lease_ms) (str "effect.acquired")
        (from_to null (str "claimed")) EffectDecisionType.execute (some env.lease_token)

  unfoldable pub plan_new : Ledger → Result Plan
  unfolding new_plan
  plan_new l = do check_run scope req.run_id l; ok new_plan

  unfoldable pub plan_for : Option EffectRecord → Ledger → Result Plan
  unfolding plan_existing plan_new
  plan_for none l = plan_new l
  plan_for (some effect) l = plan_existing effect

unfoldable pub acquire_key : Scope → Str → AcquireEffectRequest → EffectKey
acquire_key scope idempotency_key req = record {
  tenant_id = scope.tenant_id;
  project_id = scope.project_id;
  scope = req.scope;
  idempotency_key = idempotency_key;
}

-- The effect that a key names: through `effect_ids`, then `effects_by_id`.
unfoldable pub find_effect : EffectKey → Indexes → Option EffectRecord
find_effect key ix = elim (get key ix.effect_ids) [
  | none ↦ none
  | some id ↦ get id ix.effects_by_id
]

-- The decision, taken under the lock of the key's partition.
unfoldable pub acquire_plan :
    Platform → Env → Scope → Str → AcquireEffectRequest → Ledger → Result Plan
unfolding plan_for acquire_key find_effect
acquire_plan p env scope idempotency_key req l = do
  validate_effect_fields req.scope idempotency_key req.tool_name
  lease_ms ← resolve_lease_ms req.lease_duration_seconds l
  plan_for p env scope idempotency_key req lease_ms
      (find_effect (acquire_key scope idempotency_key req) l.indexes) l

-- The end of an applied plan, after `persist`.
unfoldable pub finish_plan :
    EffectRecord
    → EffectDecisionType
    → Option Str
    → Result (Unit {0}) × Ledger
    → Result EffectDecision × Ledger
finish_plan effect decision token (err e, l) = (err e, l)
finish_plan effect decision token (ok _, l) = (
  ok (record {
    decision = decision;
    effect = effect_view effect;
    lease_token = token;
    poll_after_ms = none;
  }),
  record l { counters = bump_acquire decision l.counters },
)

unfoldable pub persist_effect :
    Env → EffectRecord → Result (Option EventRecord) → Ledger → Result (Unit {0}) × Ledger
persist_effect env effect (err e) l = (err e, l)
persist_effect env effect (ok event) l = persist env (effect_applied effect event) l

unfoldable pub run_plan :
    Platform → Env → Scope → Result Plan → Ledger → Result EffectDecision × Ledger
unfolding finish_plan persist_effect
run_plan p env scope (err e) l = (err e, l)
run_plan p env scope (ok (decide d)) l =
    (ok d, record l { counters = bump_acquire d.decision l.counters })
run_plan p env scope (ok (apply_effect effect event_type detail decision token)) l =
    finish_plan effect decision token
      (persist_effect env effect (build_effect_event p env scope effect event_type detail l) l)

unfoldable pub acquire :
    Platform → Env → Scope → Str → AcquireEffectRequest → Ledger → Result EffectDecision × Ledger
unfolding acquire_plan run_plan
acquire p env scope idempotency_key req l =
    run_plan p env scope (acquire_plan p env scope idempotency_key req l) l
