-- ===== src/Ledger/Consistency/Events.antt =====
-- About the events that the code builds, as records for the indexes.
use calod.Prelude.{
  ◌≡◌, refl, ap, sym, ◌∙◌, Option, none, some, arith, nat_eq, Str, length, str_eq_iff,
}
use calod.Prelude.Int.{ℤ, add_i64-pos}
use calod.Prelude.Map.{get}
use calod.Ledger.Json.{Platform, Value}
use calod.Ledger.Model.{
  Uuid, Scope, EffectRecord, RunRecord, EventRecord, Result, ok, err, event_view, >>=-eq-ok,
}
use calod.Ledger.Chain.{compute_event_hash}
use calod.Ledger.Indexes.{effect_applied}
use calod.Ledger.Indexes.Sound.{HeadIs, Fits, FitsEffect, FitsEvent, timeline}
use calod.Ledger.State.{
  Env, Ledger, run_in_scope, run_if_in_scope, build_event, build_effect_event, effect_payload,
}
use calod.Ledger.Acquire.{persist_effect}
use calod.Ledger.Consistency.Persist.{IsConsistent, HasRoom, persist-IsConsistent}

-- What a look-up in scope tells.
pub record RunInScope (scope : Scope) (o : Option RunRecord) (run : RunRecord) : Type 0 where
  pub there : o ≡ some run
  pub tenant : run.tenant_id ≡ scope.tenant_id
  pub project : run.project_id ≡ scope.project_id

run_if_in_scope_sound :
    (scope : Scope) (r : Uuid) (o : Option RunRecord) (run : RunRecord)
    → run_if_in_scope scope r o ≡ ok run
    → RunInScope scope o run
unfolding run_if_in_scope
run_if_in_scope_sound scope r none run h = absurd (cc)
run_if_in_scope_sound scope r (some other) run h = ground (
  arith,
  str_eq_iff other.tenant_id scope.tenant_id,
  str_eq_iff other.project_id scope.project_id,
)

pub run_in_scope_sound :
    (scope : Scope) (r : Uuid) (l : Ledger) (run : RunRecord)
    → run_in_scope scope r l ≡ ok run
    → RunInScope scope (get r l.indexes.runs) run
unfolding run_in_scope
run_in_scope_sound scope r l run h = run_if_in_scope_sound scope r (get r l.indexes.runs) run h

module _ (p : Platform) (env : Env) (scope : Scope) (l : Ledger) (c : IsConsistent p l)
    (space : HasRoom l) where
  pub build_event-FitsEvent :
      (r : Uuid) (run : RunRecord) (event_type : Str) (occurred : ℤ) (payload : Value)
      → get r l.indexes.runs ≡ some run
      → FitsEvent p l.indexes (build_event p env scope run event_type occurred payload)
  unfolding build_event
  build_event-FitsEvent r run event_type occurred payload there =
      let id : run.id ≡ r = c.sound.run_ids r run there in
      let head : HeadIs run (timeline r l.indexes) = c.sound.heads r run there in
      record {
        run = run;
        there = simp id there;
        extends = record {
          sequence =
              simp (id, head.last_sequence)
                (add_i64-pos (length (timeline r l.indexes)) 1 (space.room r));
          previous_hash = simp id head.head;
          hash = unfold compute_event_hash event_view in refl;
        };
      }

  pub effect_event-FitsEvent :
      (effect : EffectRecord) (event_type : Str) (detail : Value) (e : EventRecord)
      (o : Option Uuid)
      → effect.run_id ≡ o
      → build_effect_event p env scope effect event_type detail l ≡ ok (some e)
      → FitsEvent p l.indexes e
  effect_event-FitsEvent effect event_type detail e none no_run h =
      absurd (unfold build_effect_event in cc (rw no_run at h))
  effect_event-FitsEvent effect event_type detail e (some r) in_run h =
      let (run, found, built) =
        >>=-eq-ok (run_in_scope scope r l)
          (λ run. ok (
            some (build_event p env scope run event_type env.now (effect_payload p effect detail))))
          {b = some e} (unfold build_effect_event in rw in_run at h) in
      let same : build_event p env scope run event_type env.now (effect_payload p effect detail)
          ≡ e =
        cc built in
      rw same at (
        build_event-FitsEvent r run event_type env.now (effect_payload p effect detail)
          (run_in_scope_sound scope r l run found).there)

  -- The event of an effect is on the effect's run.
  pub effect_event-run_id :
      (effect : EffectRecord) (event_type : Str) (detail : Value) (e : EventRecord)
      (o : Option Uuid)
      → effect.run_id ≡ o
      → build_effect_event p env scope effect event_type detail l ≡ ok (some e)
      → o ≡ some e.run_id
  effect_event-run_id effect event_type detail e none no_run h =
      absurd (unfold build_effect_event in cc (rw no_run at h))
  effect_event-run_id effect event_type detail e (some r) in_run h =
      let (run, found, built) =
        >>=-eq-ok (run_in_scope scope r l)
          (λ run. ok (
            some (build_event p env scope run event_type env.now (effect_payload p effect detail))))
          {b = some e} (unfold build_effect_event in rw in_run at h) in
      let id : run.id ≡ r = c.sound.run_ids r run (run_in_scope_sound scope r l run found).there in
      let on_run : run.id ≡ e.run_id = unfold build_event in cc built in ap some (sym id ∙ on_run)

  -- An effect that fits, with the event that is built for it.
  pub FitsEffectEvent :
      (effect : EffectRecord) (event_type : Str) (detail : Value) (event : Option EventRecord)
      → build_effect_event p env scope effect event_type detail l ≡ ok event
      → FitsEffect l.indexes effect
      → Fits p l.indexes (effect_applied effect event)
  FitsEffectEvent effect event_type detail none h fits = fits
  FitsEffectEvent effect event_type detail (some e) h fits =
      (fits, effect_event-FitsEvent effect event_type detail e effect.run_id refl h)

  persist_effect_result :
      (effect : EffectRecord) (event_type : Str) (detail : Value) (r : Result (Option EventRecord))
      → build_effect_event p env scope effect event_type detail l ≡ r
      → FitsEffect l.indexes effect
      → IsConsistent p (persist_effect env effect r l).1
  unfolding persist_effect
  persist_effect_result effect event_type detail (err e) h fits = c
  persist_effect_result effect event_type detail (ok event) h fits =
      persist-IsConsistent p env (effect_applied effect event) l c
        (FitsEffectEvent effect event_type detail event h fits)

  pub persist_effect-IsConsistent :
      (effect : EffectRecord) (event_type : Str) (detail : Value)
      → FitsEffect l.indexes effect
      → IsConsistent p
          (persist_effect env effect
            (build_effect_event p env scope effect event_type detail l)
            l).1
  persist_effect-IsConsistent effect event_type detail fits =
      persist_effect_result effect event_type detail
        (build_effect_event p env scope effect event_type detail l) refl fits
