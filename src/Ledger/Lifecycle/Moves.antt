-- ===== src/Ledger/Lifecycle/Moves.antt =====
-- What a transition that is not refused has checked, and what it leaves behind.
use calod.Prelude.{◌≡◌, refl, ap, ◌∙◌, sym, some, nat_eq, Str}
use calod.Prelude.Map.{get}
use calod.Ledger.Json.{Platform}
use calod.Ledger.Model.{
  Uuid, Scope, EffectRecord, Effect, UpdateEffectRequest, CallerCapabilities, Result, ok, err,
  effect_view,
}
use calod.Ledger.Indexes.{Indexes}
use calod.Ledger.Indexes.Sound.{IsSound}
use calod.Ledger.State.{Env, Ledger}
use calod.Ledger.Transition.{transition_plan, run_transition, finish_transition, transition}
use calod.Ledger.Consistency.Transitions.{transition_plan-Planned, next_effect-key}
use calod.Ledger.Lifecycle.Stored.{Stores, persist_effect-ok, get-Stores}
use calod.Ledger.Lifecycle.Authority.{Authorized, check_transition-Authorized}
use calod.Ledger.Lifecycle.Edges.{Edge, row-Edge, next_effect-target}

-- The move of one effect from `before` to `after`.
pub record Moved (p : Platform) (scope : Scope) (effect_id : Uuid) (req : UpdateEffectRequest)
    (capabilities : CallerCapabilities) (before : Indexes) (view : Effect) (after : Indexes)
    : Type 0 where
  pub old : EffectRecord
  pub next : EffectRecord
  pub there : get effect_id before.effects_by_id ≡ some old
  pub tenant : old.tenant_id ≡ scope.tenant_id
  pub project : old.project_id ≡ scope.project_id
  pub authorized : Authorized p req capabilities old
  pub edge : Edge old.state req.transition next.state
  pub fence : next.fencing_token ≡ old.fencing_token
  pub seen : view ≡ effect_view next
  pub stored : get effect_id after.effects_by_id ≡ some next

finish_transition-ok :
    (id : Uuid) (next : EffectRecord) (view : Effect) (before : Indexes)
    (r : Result (Unit {0}) × Ledger)
    → next.id ≡ id
    → (finish_transition next r).0 ≡ ok view
    → (r.0 ≡ ok tt → Stores next before r.1.indexes)
    → (view ≡ effect_view next)
      × (get id (finish_transition next r).1.indexes.effects_by_id ≡ some next)
unfolding finish_transition
finish_transition-ok id next view before (err e, l) same h stores = absurd (cc)
finish_transition-ok id next view before (ok u, l) same h stores = (
  cc,
  ap (λ i. get i l.indexes.effects_by_id) (sym same)
      ∙ get-Stores next before l.indexes (stores refl),
)

module _ (p : Platform) (env : Env) (scope : Scope) (effect_id : Uuid) (req : UpdateEffectRequest)
    (capabilities : CallerCapabilities) (l : Ledger) (sound : IsSound p l.indexes) where
  run_transition-Moved :
      (r : Result (EffectRecord × EffectRecord × Str)) (view : Effect)
      → transition_plan p env scope effect_id req capabilities l ≡ r
      → (run_transition p env scope req.transition r l).0 ≡ ok view
      → Moved p scope effect_id req capabilities l.indexes view
          (run_transition p env scope req.transition r l).1.indexes
  unfolding run_transition
  run_transition-Moved (err e) view planned h = absurd (cc)
  run_transition-Moved (ok (effect, next, event_type)) view planned h =
      let plan =
        transition_plan-Planned p env scope effect_id req capabilities l effect next event_type
          planned in
      let authorized = check_transition-Authorized p req capabilities effect plan.checked in
      let (state, fence) =
        next_effect-target env l req req.transition _ next event_type plan.stepped in
      let (same_id, _) = next_effect-key env l req req.transition _ next event_type plan.stepped in
      let id : next.id ≡ effect_id = same_id ∙ sound.effect_ids_agree effect_id effect plan.there in
      let (seen, stored) =
        finish_transition-ok effect_id next view l.indexes _ id h
          (persist_effect-ok env next _ l) in
      record {
        old = effect;
        next = next;
        there = plan.there;
        tenant = plan.tenant;
        project = plan.project;
        authorized = authorized;
        edge = rw state (row-Edge req.transition effect.state authorized.allowed);
        fence = fence;
        seen = seen;
        stored = stored;
      }

  -- A transition of a sound ledger that is not refused found the effect in the caller's tenant and
  -- project, was authorized by the effect as it was, moved it along an edge of the state machine,
  -- kept its fencing token, and answers with the effect that is now stored under the identifier.
  pub transition_moves :
      (view : Effect)
      → (transition p env scope effect_id req capabilities l).0 ≡ ok view
      → Moved p scope effect_id req capabilities l.indexes view
          (transition p env scope effect_id req capabilities l).1.indexes
  unfolding transition
  transition_moves view h =
      run_transition-Moved (transition_plan p env scope effect_id req capabilities l) view refl h
