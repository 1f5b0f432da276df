-- ===== src/Ledger/Lifecycle/Grants.antt =====
-- What a grant of execution stores and hands out.
use calod.Prelude.{
  ◌≡◌, ◌≢◌, refl, Option, none, some, nat_eq, Bool, true, false, Str, if◌then◌else◌,
}
use calod.Prelude.Int.{ℤ, pos, add_i64}
use calod.Prelude.Map.{get}
use calod.Ledger.Json.{Platform}
use calod.Ledger.Digest.{sha256_digest}
use calod.Ledger.Model.{
  Scope, EffectStatus, EffectRecord, EffectDecision, execute, AcquireEffectRequest, Result, ok, err,
  effect_view,
}
use calod.Ledger.Indexes.{Indexes}
use calod.Ledger.State.{Env, Ledger, build_effect_event}
use calod.Ledger.Acquire.{
  Plan, decide, apply_effect, plan_state, new_plan, acquire_key, find_effect, acquire_plan,
  run_plan, acquire,
}
use calod.Ledger.Lifecycle.Plans.{PlanFrom, creates, existing, acquire_plan-PlanFrom}
use calod.Ledger.Lifecycle.Stored.{finish_plan-Finished, get-Stores}

-- The fencing token of the next grant.
abbrev pub next_fence : Option EffectRecord → ℤ
next_fence none = pos 1
next_fence (some e) = add_i64 e.fencing_token (pos 1)

-- The record and the token of a grant.
pub record IsGrant (p : Platform) (env : Env) (o : Option EffectRecord) (effect : EffectRecord)
    (token : Option Str) : Type 0 where
  pub state : effect.state ≡ EffectStatus.claimed
  pub fence : effect.fencing_token ≡ next_fence o
  pub expiry : effect.lease_expires_at_ms ≡ some (add_i64 env.now effect.lease_duration_ms)
  pub token_out : token ≡ some env.lease_token
  pub token_kept : effect.lease_token_digest ≡ some (sha256_digest p env.lease_token)

abbrev PlanGrants : Platform → Env → Option EffectRecord → Plan → Type 0
PlanGrants p env o (decide d) = d.decision ≢ execute
PlanGrants p env o (apply_effect effect event_type detail decision token) =
    decision ≡ execute → IsGrant p env o effect token

PlanGrants-if :
    (p : Platform) (env : Env) (o : Option EffectRecord) (b : Bool) (x y : Plan)
    → PlanGrants p env o x
    → PlanGrants p env o y
    → PlanGrants p env o (if b then x else y)
PlanGrants-if p env o true x y hx hy = hx
PlanGrants-if p env o false x y hx hy = hy

module _ (p : Platform) (env : Env) (scope : Scope) (key : Str) (req : AcquireEffectRequest)
    (l : Ledger) where
  plan_state-grants :
      (lease_ms : ℤ) (state : EffectStatus) (e : EffectRecord)
      → PlanGrants p env (some e) (plan_state p env scope key req lease_ms state e)
  unfolding plan_state
  plan_state-grants lease_ms EffectStatus.committed e = λ h. cc
  plan_state-grants lease_ms EffectStatus.reconciled_committed e = λ h. cc
  plan_state-grants lease_ms EffectStatus.failed_terminal e = λ h. cc
  plan_state-grants lease_ms EffectStatus.reconciled_failed e = λ h. cc
  plan_state-grants lease_ms EffectStatus.outcome_unknown e = λ h. cc
  plan_state-grants lease_ms EffectStatus.failed_retryable e =
      λ h. record { state = refl; fence = refl; expiry = refl; token_out = refl; token_kept = refl }
  plan_state-grants lease_ms EffectStatus.claimed e =
      PlanGrants-if p env (some e) _ (decide _) (apply_effect _ _ _ _ _) (λ h. cc)
        (λ h. record {
          state = refl;
          fence = refl;
          expiry = refl;
          token_out = refl;
          token_kept = refl;
        })
  plan_state-grants lease_ms EffectStatus.in_progress e =
      PlanGrants-if p env (some e) _ (decide _) (apply_effect _ _ _ _ _) (λ h. cc)
        (λ h. absurd (cc))

  new_plan-grants : (lease_ms : ℤ) → PlanGrants p env none (new_plan p env scope key req lease_ms)
  unfolding new_plan
  new_plan-grants lease_ms =
      λ h. record { state = refl; fence = refl; expiry = refl; token_out = refl; token_kept = refl }

  plan-grants :
      (o : Option EffectRecord) (plan : Plan)
      → PlanFrom p env scope key req l o plan
      → PlanGrants p env o plan
  plan-grants none plan (creates lease_ms checked same) = rw same (new_plan-grants lease_ms)
  plan-grants (some e) plan (existing lease_ms matches same) =
      rw same (plan_state-grants lease_ms e.state e)

-- What a caller that may execute holds, and what the ledger stores for it.
pub record Granted (p : Platform) (env : Env) (o : Option EffectRecord) (d : EffectDecision)
    (after : Indexes) : Type 0 where
  pub effect : EffectRecord
  pub stored : get d.effect.id after.effects_by_id ≡ some effect
  pub seen : d.effect ≡ effect_view effect
  pub grant : IsGrant p env o effect d.lease_token

run_plan-Granted :
    (p : Platform) (env : Env) (scope : Scope) (l : Ledger) (o : Option EffectRecord) (plan : Plan)
    (d : EffectDecision)
    → PlanGrants p env o plan
    → (run_plan p env scope (ok plan) l).0 ≡ ok d
    → d.decision ≡ execute
    → Granted p env o d (run_plan p env scope (ok plan) l).1.indexes
unfolding run_plan
run_plan-Granted p env scope l o (decide c) d grants h executes = absurd (grants (cc))
run_plan-Granted p env scope l o (apply_effect effect event_type detail decision token) d grants h
      executes =
    let f =
      finish_plan-Finished env effect decision token d l
        (build_effect_event p env scope effect event_type detail l) h in
    record {
      effect = effect;
      stored = rw (f.seen) (unfold effect_view in get-Stores effect _ _ f.stores);
      seen = f.seen;
      grant = rw (f.handed) (grants (cc (f.decided, executes)));
    }

run_plan-planned :
    (p : Platform) (env : Env) (scope : Scope) (l : Ledger) (plan : Result Plan)
    (d : EffectDecision)
    → (run_plan p env scope plan l).0 ≡ ok d
    → (q : Plan) × (plan ≡ ok q)
unfolding run_plan
run_plan-planned p env scope l (err e) d h = absurd (cc)
run_plan-planned p env scope l (ok q) d h = (q, refl)

-- A grant of execution stores the effect as claimed, under a lease that ends `lease_duration_ms`
-- after the call, with a fencing token that is one above the old one (1 for a new effect, wrapping
-- at 2^63), and with the digest of the lease token that it hands out.
pub acquire_grants :
    (p : Platform) (env : Env) (scope : Scope) (key : Str) (req : AcquireEffectRequest) (l : Ledger)
    (d : EffectDecision)
    → (acquire p env scope key req l).0 ≡ ok d
    → d.decision ≡ execute
    → Granted p env
        (find_effect (acquire_key scope key req) l.indexes)
        d
        (acquire p env scope key req l).1.indexes
unfolding acquire
acquire_grants p env scope key req l d h executes =
    let o = find_effect (acquire_key scope key req) l.indexes in
    let (plan, planned) = run_plan-planned p env scope l (acquire_plan p env scope key req l) d h in
    let grants =
      plan-grants p env scope key req l o plan
        (acquire_plan-PlanFrom p env scope key req l plan planned) in
    rw (planned, acquire)
      (run_plan-Granted p env scope l o plan d grants (rw (planned, acquire) at h) executes)
