-- ===== src/Ledger/Transition.antt =====
-- `Ledger::transition`: calod/crates/calod-ledger/src/ledger.rs.
use calod.Prelude.{
  ℕ, Bool, true, false, Option, none, some, Str, str, str_eq, opt_eq, if◌then◌else◌,
}
use calod.Prelude.Int.{ℤ, add_i64, eq_ℤ}
use calod.Prelude.Map.{get}
use calod.Prelude.{nat_eq}
use calod.Ledger.Json.{Platform, Value, string, object, field, done}
use calod.Ledger.Digest.{sha256_digest}
use calod.Ledger.Model.{
  Uuid, Scope, EffectStatus, EffectTransition, EffectFailure, EffectRecord, Effect,
  UpdateEffectRequest, CallerCapabilities, LedgerError, Field, Resource, Result, ok, err,
  effect_view, effect_status_as_str, effect_transition_as_str, is_worker_transition, ◌>>=◌, ◌>>◌,
}
use calod.Ledger.State.{Env, Ledger, bump, effect_in_scope, resolve_lease_ms, build_effect_event}
use calod.Ledger.Acquire.{failure_or, persist_effect}

-- The table of the legal transitions.
unfoldable pub legal : EffectTransition → EffectStatus → Bool
legal EffectTransition.start EffectStatus.claimed = true
legal EffectTransition.renew EffectStatus.claimed = true
legal EffectTransition.renew EffectStatus.in_progress = true
legal EffectTransition.commit EffectStatus.claimed = true
legal EffectTransition.commit EffectStatus.in_progress = true
legal EffectTransition.fail_retryable EffectStatus.claimed = true
legal EffectTransition.fail_retryable EffectStatus.in_progress = true
legal EffectTransition.fail_terminal EffectStatus.claimed = true
legal EffectTransition.fail_terminal EffectStatus.in_progress = true
legal EffectTransition.mark_outcome_unknown EffectStatus.claimed = true
legal EffectTransition.mark_outcome_unknown EffectStatus.in_progress = true
legal EffectTransition.reconcile_committed EffectStatus.outcome_unknown = true
legal EffectTransition.reconcile_failed EffectStatus.outcome_unknown = true
legal _ _ = false

-- `guard(test)?`
unfoldable pub guard : Bool → LedgerError → Result (Unit {0})
guard true e = ok tt
guard false e = err e

-- The lease token that a worker presents.
unfoldable pub check_lease_token : Platform → Option Str → EffectRecord → Result (Unit {0})
unfolding guard
check_lease_token p none effect = err (LedgerError.validation Field.lease_token)
check_lease_token p (some token) effect =
    guard (opt_eq str_eq effect.lease_token_digest (some (sha256_digest p token)))
      LedgerError.forbidden

unfoldable pub authorize :
    Platform → UpdateEffectRequest → CallerCapabilities → EffectRecord → Result (Unit {0})
unfolding check_lease_token guard
authorize p req capabilities effect =
    if is_worker_transition req.transition
    then check_lease_token p req.lease_token effect
    else guard capabilities.can_reconcile LedgerError.forbidden

-- The three checks, in order: the fencing token, the state, the caller.
unfoldable pub check_transition :
    Platform → UpdateEffectRequest → CallerCapabilities → EffectRecord → Result (Unit {0})
unfolding guard authorize legal
check_transition p req capabilities effect = do
  guard (eq_ℤ req.fencing_token effect.fencing_token)
      (LedgerError.stale_fencing_token effect.fencing_token req.fencing_token)
  guard (legal req.transition effect.state) (
      LedgerError.invalid_transition (effect_status_as_str effect.state)
        (effect_transition_as_str req.transition))
  authorize p req capabilities effect

unfoldable pub worker_failure : Bool → EffectFailure
worker_failure retryable = record {
  kind = str "failed";
  message = str "worker reported failure";
  retryable = retryable;
}

unfoldable pub reconciled_failure : EffectFailure
reconciled_failure = record {
  kind = str "reconciled_failed";
  message = str "reconciliation proved the tool did not fire";
  retryable = false;
}

unfoldable pub renewed_lease_ms : Option ℕ → EffectRecord → Ledger → Result ℤ
renewed_lease_ms none effect l = ok effect.lease_duration_ms
renewed_lease_ms (some secs) effect l = resolve_lease_ms (some secs) l

-- The state that a failure by the worker leads to.
unfoldable pub failed_state : Bool → EffectStatus
failed_state true = EffectStatus.failed_retryable
failed_state false = EffectStatus.failed_terminal

unfoldable pub fail_effect : Bool → UpdateEffectRequest → EffectRecord → EffectRecord
unfolding failed_state failure_or
fail_effect retryable req next = record next {
  state = failed_state retryable;
  failure = failure_or (worker_failure retryable) req.failure;
  lease_expires_at_ms = none;
  lease_token_digest = none;
}

-- The new state, without its time, and the type of its event.
unfoldable pub next_effect :
    Env
    → Ledger
    → UpdateEffectRequest
    → EffectTransition
    → EffectRecord
    → Result (EffectRecord × Str)
unfolding renewed_lease_ms fail_effect
next_effect env l req EffectTransition.start next =
    ok (record next { state = EffectStatus.in_progress }, str "effect.started")
next_effect env l req EffectTransition.renew next = do
  lease_ms ← renewed_lease_ms req.lease_duration_seconds next l
  ok (
    record next {
      lease_expires_at_ms = some (add_i64 env.now lease_ms);
      lease_duration_ms = lease_ms;
    },
    str "effect.renewed",
  )
next_effect env l req EffectTransition.commit next = ok (
  record next {
    state = EffectStatus.committed;
    result = req.result;
    external_receipt = req.external_receipt;
    failure = none;
    lease_expires_at_ms = none;
    lease_token_digest = none;
  },
  str "effect.committed",
)
next_effect env l req EffectTransition.fail_retryable next =
    ok (fail_effect true req next, str "effect.failed")
next_effect env l req EffectTransition.fail_terminal next =
    ok (fail_effect false req next, str "effect.failed")
next_effect env l req EffectTransition.mark_outcome_unknown next = ok (
  record next {
    state = EffectStatus.outcome_unknown;
    failure = req.failure;
    lease_expires_at_ms = none;
    lease_token_digest = none;
  },
  str "effect.outcome_unknown",
)
next_effect env l req EffectTransition.reconcile_committed next = ok (
  record next {
    state = EffectStatus.reconciled_committed;
    result = req.result;
    external_receipt = req.external_receipt;
  },
  str "effect.reconciled",
)
next_effect env l req EffectTransition.reconcile_failed next = ok (
  record next {
    state = EffectStatus.reconciled_failed;
    failure = failure_or reconciled_failure req.failure;
  },
  str "effect.reconciled",
)

unfoldable pub transition_detail : EffectStatus → EffectStatus → EffectTransition → Value
transition_detail from to transition = object (
    field (str "from") (string (effect_status_as_str from)) (
      field (str "to") (string (effect_status_as_str to))
        (field (str "transition") (string (effect_transition_as_str transition)) done)))

-- `.ok_or_else(NotFound)`
unfoldable pub effect_or_not_found : Uuid → Option EffectRecord → Result EffectRecord
effect_or_not_found id none = err (LedgerError.not_found Resource.effect id)
effect_or_not_found id (some effect) = ok effect

-- The decision, taken under the lock of the effect's partition: the old record, the new one and
-- the type of the event.
unfoldable pub transition_plan :
    Platform
    → Env
    → Scope
    → Uuid
    → UpdateEffectRequest
    → CallerCapabilities
    → Ledger
    → Result (EffectRecord × EffectRecord × Str)
unfolding effect_or_not_found
transition_plan p env scope effect_id req capabilities l = do
  current ← effect_in_scope scope effect_id l
  effect ← effect_or_not_found effect_id (get effect_id l.indexes.effects_by_id)
  check_transition p req capabilities effect
  (next, event_type) ←
      next_effect env l req req.transition (record effect { updated_at_ms = env.now })
  ok (effect, next, event_type)

unfoldable pub finish_transition :
    EffectRecord → Result (Unit {0}) × Ledger → Result Effect × Ledger
finish_transition next (err e, l) = (err e, l)
finish_transition next (ok _, l) = (
  ok (effect_view next),
  record l {
    counters = record l.counters { transitions_total = bump l.counters.transitions_total 1 };
  },
)

unfoldable pub run_transition :
    Platform
    → Env
    → Scope
    → EffectTransition
    → Result (EffectRecord × EffectRecord × Str)
    → Ledger
    → Result Effect × Ledger
unfolding finish_transition persist_effect transition_detail
run_transition p env scope transition (err e) l = (err e, l)
run_transition p env scope transition (ok (effect, next, event_type)) l = finish_transition next (
    persist_effect env next
      (build_effect_event p env scope next event_type
        (transition_detail effect.state next.state transition) l)
      l)

unfoldable pub transition :
    Platform
    → Env
    → Scope
    → Uuid
    → UpdateEffectRequest
    → CallerCapabilities
    → Ledger
    → Result Effect × Ledger
unfolding transition_plan run_transition
transition p env scope effect_id req capabilities l =
    run_transition p env scope req.transition
      (transition_plan p env scope effect_id req capabilities l) l
