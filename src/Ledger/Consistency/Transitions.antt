-- ===== src/Ledger/Consistency/Transitions.antt =====
-- About `transition` and the consistency of the ledger.
use calod.Prelude.{◌≡◌, refl, ◌∙◌, Option, none, some, Str, arith, nat_eq, inr, str_eq_iff}
use calod.Prelude.Map.{get}
use calod.Ledger.Json.{Platform}
use calod.Ledger.Model.{
  Uuid, Scope, EffectTransition, EffectRecord, UpdateEffectRequest, CallerCapabilities, Result, ok,
  err, >>=-eq-ok, ◌>>=◌, ◌>>◌,
}
use calod.Ledger.Indexes.{effect_key_of}
use calod.Ledger.Indexes.Sound.{IsSound, FitsEffect}
use calod.Ledger.State.{Env, Ledger, effect_in_scope, effect_if_in_scope}
use calod.Ledger.Transition.{
  next_effect, transition_plan, run_transition, finish_transition, transition, transition_detail,
  check_transition, effect_or_not_found,
}
use calod.Ledger.Consistency.Persist.{IsConsistent, HasRoom}
use calod.Ledger.Consistency.Events.{persist_effect-IsConsistent}

effect_in_scope_cases :
    (scope : Scope) (id : Uuid) (o : Option EffectRecord) (effect : EffectRecord)
    → effect_if_in_scope scope id o ≡ ok effect
    → (o ≡ some effect)
      × (effect.tenant_id ≡ scope.tenant_id)
      × (effect.project_id ≡ scope.project_id)
unfolding effect_if_in_scope
effect_in_scope_cases scope id none effect h = absurd (cc)
effect_in_scope_cases scope id (some other) effect h = ground (
  arith,
  str_eq_iff other.tenant_id scope.tenant_id,
  str_eq_iff other.project_id scope.project_id,
)

-- A look-up in scope finds the effect that is there, of the caller's tenant and project.
pub effect_in_scope_sound :
    (scope : Scope) (id : Uuid) (l : Ledger) (effect : EffectRecord)
    → effect_in_scope scope id l ≡ ok effect
    → (get id l.indexes.effects_by_id ≡ some effect)
      × (effect.tenant_id ≡ scope.tenant_id)
      × (effect.project_id ≡ scope.project_id)
unfolding effect_in_scope
effect_in_scope_sound scope id l effect h =
    effect_in_scope_cases scope id (get id l.indexes.effects_by_id) effect h

-- A step of the state machine keeps an effect's identifier and key.
pub next_effect-key :
    (env : Env) (l : Ledger) (req : UpdateEffectRequest) (t : EffectTransition)
    (effect next : EffectRecord) (event_type : Str)
    → next_effect env l req t effect ≡ ok (next, event_type)
    → (next.id ≡ effect.id) × (effect_key_of next ≡ effect_key_of effect)
unfolding next_effect effect_key_of
next_effect-key env l req t effect next event_type h = ground arith

or_not_found_sound :
    (id : Uuid) (o : Option EffectRecord) (effect : EffectRecord)
    → effect_or_not_found id o ≡ ok effect
    → o ≡ some effect
unfolding effect_or_not_found
or_not_found_sound id none effect h = cc
or_not_found_sound id (some other) effect h = cc

finish_transition-IsConsistent :
    (p : Platform) (next : EffectRecord) (r : Result (Unit {0}) × Ledger)
    → IsConsistent p r.1
    → IsConsistent p (finish_transition next r).1
unfolding finish_transition
finish_transition-IsConsistent p next (err e, l) c = c
finish_transition-IsConsistent p next (ok u, l) c = record { sound = c.sound; replays = c.replays }

-- What a transition that is not refused has checked.
pub record Planned (p : Platform) (env : Env) (scope : Scope) (effect_id : Uuid)
    (req : UpdateEffectRequest) (capabilities : CallerCapabilities) (l : Ledger)
    (effect next : EffectRecord) (event_type : Str) : Type 0 where
  pub there : get effect_id l.indexes.effects_by_id ≡ some effect
  pub tenant : effect.tenant_id ≡ scope.tenant_id
  pub project : effect.project_id ≡ scope.project_id
  pub checked : check_transition p req capabilities effect ≡ ok tt
  pub stepped :
      next_effect env l req req.transition (record effect { updated_at_ms = env.now })
      ≡ ok (next, event_type)

abbrev chain :
    (found again : Result EffectRecord) (check : EffectRecord → Result (Unit {0}))
    (step : EffectRecord → Result (EffectRecord × Str))
    → Result (EffectRecord × EffectRecord × Str)
chain found again check step = do
  current ← found
  effect ← again
  check effect
  (next, event_type) ← step effect
  ok (effect, next, event_type)

-- Inversion of the chain of steps in `transition_plan`.
record Chained (found again : Result EffectRecord) (check : EffectRecord → Result (Unit {0}))
    (step : EffectRecord → Result (EffectRecord × Str)) (effect next : EffectRecord)
    (event_type : Str) : Type 0 where
  current : EffectRecord
  first : found ≡ ok current
  second : again ≡ ok effect
  checked : check effect ≡ ok tt
  stepped : step effect ≡ ok (next, event_type)

chained :
    (found again : Result EffectRecord) (check : EffectRecord → Result (Unit {0}))
    (step : EffectRecord → Result (EffectRecord × Str)) (effect next : EffectRecord)
    (event_type : Str)
    → chain found again check step ≡ ok (effect, next, event_type)
    → Chained found again check step effect next event_type
chained (err x) again check step effect next event_type h = absurd (cc)
chained (ok c) (err x) check step effect next event_type h = absurd (cc)
chained (ok c) (ok e) check step effect next event_type h =
    let (u, checked, h2) = >>=-eq-ok (check e) _ {b = (effect, next, event_type)} h in
    let (r, stepped, h3) = >>=-eq-ok (step e) _ {b = (effect, next, event_type)} h2 in
    record {
      current = c;
      first = refl;
      second = cc h3;
      checked = cc (checked, h3);
      stepped = cc (stepped, h3);
    }

module _ (p : Platform) (env : Env) (scope : Scope) (effect_id : Uuid) (req : UpdateEffectRequest)
    (capabilities : CallerCapabilities) (l : Ledger) where
  pub transition_plan-Planned :
      (effect next : EffectRecord) (event_type : Str)
      → transition_plan p env scope effect_id req capabilities l ≡ ok (effect, next, event_type)
      → Planned p env scope effect_id req capabilities l effect next event_type
  unfolding transition_plan
  transition_plan-Planned effect next event_type h =
      let c =
        chained (effect_in_scope scope effect_id l)
          (effect_or_not_found effect_id (get effect_id l.indexes.effects_by_id))
          (check_transition p req capabilities)
          (λ e. next_effect env l req req.transition (record e { updated_at_ms = env.now })) effect
          next event_type h in
      let (was, tenant, project) = effect_in_scope_sound scope effect_id l c.current c.first in
      let there =
        or_not_found_sound effect_id (get effect_id l.indexes.effects_by_id) effect c.second in
      let same : c.current ≡ effect = cc (was, there) in
      record {
        there = there;
        tenant = cc (tenant, same);
        project = cc (project, same);
        checked = c.checked;
        stepped = c.stepped;
      }

  pub transition_plan-fits :
      (effect next : EffectRecord) (event_type : Str)
      → IsSound p l.indexes
      → transition_plan p env scope effect_id req capabilities l ≡ ok (effect, next, event_type)
      → FitsEffect l.indexes next
  transition_plan-fits effect next event_type sound h =
      let plan = transition_plan-Planned effect next event_type h in
      let (same_id, same_key) =
        next_effect-key env l req req.transition (record effect { updated_at_ms = env.now }) next
          event_type plan.stepped in
      let id : next.id ≡ effect_id = same_id ∙ sound.effect_ids_agree effect_id effect plan.there in
      inr (effect, simp id plan.there, unfold effect_key_of in same_key)

  run_transition-IsConsistent :
      (r : Result (EffectRecord × EffectRecord × Str))
      → IsConsistent p l
      → HasRoom l
      → transition_plan p env scope effect_id req capabilities l ≡ r
      → IsConsistent p (run_transition p env scope req.transition r l).1
  unfolding run_transition
  run_transition-IsConsistent (err e) c space h = c
  run_transition-IsConsistent (ok (effect, next, event_type)) c space h =
      finish_transition-IsConsistent p next _ (
        persist_effect-IsConsistent p env scope l c space next event_type
          (transition_detail effect.state next.state req.transition)
          (transition_plan-fits effect next event_type c.sound h))

  -- Whatever is asked, and whatever the log writer answers.
  pub transition-IsConsistent :
      IsConsistent p l
      → HasRoom l
      → IsConsistent p (transition p env scope effect_id req capabilities l).1
  unfolding transition
  transition-IsConsistent c space =
      run_transition-IsConsistent (transition_plan p env scope effect_id req capabilities l) c space
        refl
