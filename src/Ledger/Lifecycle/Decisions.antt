-- ===== src/Ledger/Lifecycle/Decisions.antt =====
-- What `acquire` decides.
use calod.Prelude.{◌≡◌, refl, ◌∙◌, Option, none, some, nat_eq, arith, Bool, Str, if◌then◌else◌}
use calod.Prelude.Int.{ℤ, ltb_ℤ}
use calod.Ledger.Json.{Platform}
use calod.Ledger.Model.{
  Scope, EffectStatus, EffectRecord, EffectDecision, EffectDecisionType, execute, replay, wait,
  reconcile, AcquireEffectRequest, Result, ok, err, >>=-eq-ok,
}
use calod.Ledger.State.{Env, Ledger, resolve_lease_ms}
use calod.Ledger.Validate.{validate_effect_fields}
use calod.Ledger.Acquire.{
  Plan, decide, apply_effect, expires_or, plan_state, plan_for, acquire_key, find_effect,
  acquire_plan, finish_plan, run_plan, acquire, check_run,
}

-- Whether the lease of an effect still runs.
abbrev pub is_live : Env → EffectRecord → Bool
is_live env e = ltb_ℤ env.now (expires_or env.now e.lease_expires_at_ms)

-- What the crate's documentation promises for an effect in each state.
abbrev pub decision_for : EffectStatus → Bool → EffectDecisionType
decision_for EffectStatus.committed live = replay
decision_for EffectStatus.reconciled_committed live = replay
decision_for EffectStatus.failed_terminal live = replay
decision_for EffectStatus.reconciled_failed live = replay
decision_for EffectStatus.outcome_unknown live = reconcile
decision_for EffectStatus.failed_retryable live = execute
decision_for EffectStatus.claimed live = if live then wait else execute
decision_for EffectStatus.in_progress live = if live then wait else reconcile

abbrev pub expected : Env → Option EffectRecord → EffectDecisionType
expected env none = execute
expected env (some e) = decision_for e.state (is_live env e)

abbrev plan_decision : Plan → EffectDecisionType
plan_decision (decide d) = d.decision
plan_decision (apply_effect effect event_type detail decision token) = decision

finished :
    (effect : EffectRecord) (decision : EffectDecisionType) (token : Option Str)
    (r : Result (Unit {0}) × Ledger) (d : EffectDecision)
    → (finish_plan effect decision token r).0 ≡ ok d
    → d.decision ≡ decision
unfolding finish_plan
finished effect decision token (err e, l) d h = absurd (cc)
finished effect decision token (ok u, l) d h = cc

module _ (p : Platform) (env : Env) (scope : Scope) (key : Str) (req : AcquireEffectRequest)
    (l : Ledger) where
  plan_state-decision :
      (lease_ms : ℤ) (state : EffectStatus) (e : EffectRecord)
      → plan_decision (plan_state p env scope key req lease_ms state e)
        ≡ decision_for state (is_live env e)
  unfolding plan_state
  plan_state-decision lease_ms EffectStatus.committed e = refl
  plan_state-decision lease_ms state e = ground arith

  plan_for-decision :
      (lease_ms : ℤ) (o : Option EffectRecord) (plan : Plan)
      → plan_for p env scope key req lease_ms o l ≡ ok plan
      → plan_decision plan ≡ expected env o
  unfolding plan_for
  plan_for-decision lease_ms none plan h =
      let (u, checked, h1) = >>=-eq-ok (check_run scope req.run_id l) _ {b = plan} h in ground arith
  plan_for-decision lease_ms (some e) plan h =
      ground (arith, plan_state-decision lease_ms e.state e)

  acquire_plan-decision :
      (plan : Plan)
      → acquire_plan p env scope key req l ≡ ok plan
      → plan_decision plan ≡ expected env (find_effect (acquire_key scope key req) l.indexes)
  unfolding acquire_plan
  acquire_plan-decision plan h =
      let (u, valid, h1) =
        >>=-eq-ok (validate_effect_fields req.scope key req.tool_name) _ {b = plan} h in
      let (lease_ms, resolved, h2) =
        >>=-eq-ok (resolve_lease_ms req.lease_duration_seconds l) _ {b = plan} h1 in
      plan_for-decision lease_ms (find_effect (acquire_key scope key req) l.indexes) plan h2

  run_plan-decision :
      (plan : Result Plan) (d : EffectDecision)
      → (run_plan p env scope plan l).0 ≡ ok d
      → (q : Plan) × (plan ≡ ok q) × (d.decision ≡ plan_decision q)
  unfolding run_plan
  run_plan-decision (err e) d h = absurd (cc)
  run_plan-decision (ok (decide c)) d h = (decide c, refl, cc)
  run_plan-decision (ok (apply_effect effect event_type detail decision token)) d h = (
    apply_effect effect event_type detail decision token,
    refl,
    finished effect decision token _ d h,
  )

  -- An acquire that is not refused decides by the state of the effect that its key names and by
  -- whether its lease still runs; a key that names no effect is executed.
  pub acquire_decides :
      (d : EffectDecision)
      → (acquire p env scope key req l).0 ≡ ok d
      → d.decision ≡ expected env (find_effect (acquire_key scope key req) l.indexes)
  unfolding acquire
  acquire_decides d h =
      let (plan, planned, same) = run_plan-decision (acquire_plan p env scope key req l) d h in
      same ∙ acquire_plan-decision plan planned
