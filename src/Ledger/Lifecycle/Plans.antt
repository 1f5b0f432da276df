-- ===== src/Ledger/Lifecycle/Plans.antt =====
-- Where a plan of `acquire` comes from: the key names no effect, or one with the same input and
-- tool.
use calod.Prelude.{◌≡◌, Option, none, some, nat_eq, arith, Str, str_eq_iff}
use calod.Prelude.Int.{ℤ}
use calod.Ledger.Json.{Platform}
use calod.Ledger.Digest.{input_digest}
use calod.Ledger.Model.{Scope, EffectRecord, AcquireEffectRequest, ok, >>=-eq-ok}
use calod.Ledger.State.{Env, Ledger, resolve_lease_ms}
use calod.Ledger.Validate.{validate_effect_fields}
use calod.Ledger.Acquire.{
  Plan, plan_state, plan_existing, new_plan, plan_for, acquire_key, find_effect, acquire_plan,
  check_run,
}

-- The request repeats the one that an effect was created by.
pub record Matches (p : Platform) (req : AcquireEffectRequest) (e : EffectRecord) : Type 0 where
  pub digest : e.input_digest ≡ input_digest p req.input
  pub tool : e.tool_name ≡ req.tool_name

pub data PlanFrom (p : Platform) (env : Env) (scope : Scope) (key : Str)
    (req : AcquireEffectRequest) (l : Ledger) : Option EffectRecord → Plan → Type 0 where
  creates :
      (lease_ms : ℤ) {plan : Plan}
      → check_run scope req.run_id l ≡ ok tt
      → plan ≡ new_plan p env scope key req lease_ms
      → PlanFrom p env scope key req l none plan
  existing :
      (lease_ms : ℤ) {e : EffectRecord} {plan : Plan}
      → Matches p req e
      → plan ≡ plan_state p env scope key req lease_ms e.state e
      → PlanFrom p env scope key req l (some e) plan

module _ (p : Platform) (env : Env) (scope : Scope) (key : Str) (req : AcquireEffectRequest)
    (l : Ledger) where
  plan_existing-Matches :
      (lease_ms : ℤ) (e : EffectRecord) (plan : Plan)
      → plan_existing p env scope key req lease_ms e ≡ ok plan
      → Matches p req e × (plan ≡ plan_state p env scope key req lease_ms e.state e)
  unfolding plan_existing
  plan_existing-Matches lease_ms e plan h = ground (
    arith,
    str_eq_iff e.input_digest (input_digest p req.input),
    str_eq_iff e.tool_name req.tool_name,
  )

  plan_for-PlanFrom :
      (lease_ms : ℤ) (o : Option EffectRecord) (plan : Plan)
      → plan_for p env scope key req lease_ms o l ≡ ok plan
      → PlanFrom p env scope key req l o plan
  unfolding plan_for
  plan_for-PlanFrom lease_ms none plan h =
      let (u, checked, same) = >>=-eq-ok (check_run scope req.run_id l) _ {b = plan} h in
      creates lease_ms checked (cc same)
  plan_for-PlanFrom lease_ms (some e) plan h =
      let (matches, same) = plan_existing-Matches lease_ms e plan h in
      existing lease_ms matches same

  pub acquire_plan-PlanFrom :
      (plan : Plan)
      → acquire_plan p env scope key req l ≡ ok plan
      → PlanFrom p env scope key req l (find_effect (acquire_key scope key req) l.indexes) plan
  unfolding acquire_plan
  acquire_plan-PlanFrom plan h =
      let (u, valid, h1) =
        >>=-eq-ok (validate_effect_fields req.scope key req.tool_name) _ {b = plan} h in
      let (lease_ms, resolved, h2) =
        >>=-eq-ok (resolve_lease_ms req.lease_duration_seconds l) _ {b = plan} h1 in
      plan_for-PlanFrom lease_ms (find_effect (acquire_key scope key req) l.indexes) plan h2
