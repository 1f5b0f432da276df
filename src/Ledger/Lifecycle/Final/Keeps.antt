-- ===== src/Ledger/Lifecycle/Final/Keeps.antt =====
-- About the effects that `acquire` and `transition` write.
use calod.Prelude.{
  ◌≡◌, ◌≢◌, refl, ◌∙◌, sym, ap, Bool, true, false, Option, none, some, Str, nat_eq, arith,
  if◌then◌else◌,
}
use calod.Prelude.Int.{ℤ}
use calod.Prelude.Map.{get}
use calod.Ledger.Json.{Platform, Value}
use calod.Ledger.Model.{
  Uuid, Scope, EffectStatus, EffectTransition, EffectRecord, EventRecord, EffectDecision,
  EffectDecisionType, AcquireEffectRequest, UpdateEffectRequest, CallerCapabilities,
  is_retention_terminal, Result, ok, err,
}
use calod.Ledger.Indexes.{Indexes, EffectKey, key_eq, effect_applied}
use calod.Ledger.Indexes.Sound.{IsSound, FitsEffect}
use calod.Ledger.State.{Env, Ledger, build_effect_event}
use calod.Ledger.Acquire.{
  Plan, decide, apply_effect, plan_state, new_plan, acquire_key, find_effect, acquire_plan,
  finish_plan, persist_effect, run_plan, acquire,
}
use calod.Ledger.Transition.{
  legal, transition_plan, run_transition, finish_transition, transition, transition_detail,
}
use calod.Ledger.Consistency.Effects.{
  IsFresh, find_effect-Found, PlanFits, writes, reads, refused, acquire_plan-fits,
}
use calod.Ledger.Consistency.Transitions.{
  transition_plan-Planned, transition_plan-fits, next_effect-key,
}
use calod.Ledger.Lifecycle.Plans.{PlanFrom, creates, existing, acquire_plan-PlanFrom}
use calod.Ledger.Lifecycle.Authority.{check_transition-Authorized}
use calod.Ledger.Lifecycle.Final.{IsFinal, persist-IsFinal}

not_final :
    (ix : Indexes) (key : EffectKey) (e other : EffectRecord)
    → IsFinal key e ix
    → get other.id ix.effects_by_id ≡ some other
    → is_retention_terminal other.state ≡ false
    → other.id ≢ e.id
not_final ix key e other final there moves same = cc (final.there, there, same, final.final, moves)

-- A plan that writes no effect, or another one.
data PlanSpares (e : EffectRecord) : Plan → Type 0 where
  reads_only : {d : EffectDecision} → PlanSpares e (decide d)
  writes_other :
      {effect : EffectRecord} {event_type : Str} {detail : Value} {decision : EffectDecisionType}
      {token : Option Str}
      → effect.id ≢ e.id
      → PlanSpares e (apply_effect effect event_type detail decision token)

PlanSpares-if :
    (e : EffectRecord) (b : Bool) (x y : Plan)
    → PlanSpares e x
    → PlanSpares e y
    → PlanSpares e (if b then x else y)
PlanSpares-if e true x y hx hy = hx
PlanSpares-if e false x y hx hy = hy

-- What a plan writes.
abbrev written : Plan → Option EffectRecord
written (decide d) = none
written (apply_effect effect event_type detail decision token) = some effect

spared :
    (e effect : EffectRecord) (plan : Plan)
    → PlanSpares e plan
    → written plan ≡ some effect
    → effect.id ≢ e.id
spared e effect plan reads_only h = absurd (cc)
spared e effect plan (writes_other {effect = wrote} other) h = λ same. other (cc (h, same))

persist_effect-IsFinal :
    (p : Platform) (env : Env) (l : Ledger) (key : EffectKey) (e effect : EffectRecord)
    (event : Result (Option EventRecord))
    → IsSound p l.indexes
    → FitsEffect l.indexes effect
    → effect.id ≢ e.id
    → IsFinal key e l.indexes
    → IsFinal key e (persist_effect env effect event l).1.indexes
unfolding persist_effect
persist_effect-IsFinal p env l key e effect (err x) sound fits other final = final
persist_effect-IsFinal p env l key e effect (ok event) sound fits other final =
    persist-IsFinal p env (effect_applied effect event) l key e sound (fits, other) final

finish_plan-indexes :
    (effect : EffectRecord) (decision : EffectDecisionType) (token : Option Str)
    (r : Result (Unit {0}) × Ledger)
    → (finish_plan effect decision token r).1.indexes ≡ r.1.indexes
unfolding finish_plan
finish_plan-indexes effect decision token (err e, l) = refl
finish_plan-indexes effect decision token (ok u, l) = refl

finish_transition-indexes :
    (next : EffectRecord) (r : Result (Unit {0}) × Ledger)
    → (finish_transition next r).1.indexes ≡ r.1.indexes
unfolding finish_transition
finish_transition-indexes next (err e, l) = refl
finish_transition-indexes next (ok u, l) = refl

module _ (p : Platform) (env : Env) (scope : Scope) (l : Ledger) (sound : IsSound p l.indexes)
    (key : EffectKey) (e : EffectRecord) (final : IsFinal key e l.indexes) where
  plan_state-spares :
      (name : Str) (req : AcquireEffectRequest) (lease_ms : ℤ) (state : EffectStatus)
      (other : EffectRecord)
      → other.state ≡ state
      → get other.id l.indexes.effects_by_id ≡ some other
      → PlanSpares e (plan_state p env scope name req lease_ms state other)
  unfolding plan_state is_retention_terminal
  plan_state-spares name req lease_ms EffectStatus.committed other s h = reads_only
  plan_state-spares name req lease_ms EffectStatus.reconciled_committed other s h = reads_only
  plan_state-spares name req lease_ms EffectStatus.failed_terminal other s h = reads_only
  plan_state-spares name req lease_ms EffectStatus.reconciled_failed other s h = reads_only
  plan_state-spares name req lease_ms EffectStatus.outcome_unknown other s h = reads_only
  plan_state-spares name req lease_ms EffectStatus.failed_retryable other s h =
      writes_other (not_final l.indexes key e other final h (ap is_retention_terminal s))
  plan_state-spares name req lease_ms EffectStatus.claimed other s h =
      PlanSpares-if e _ _ _ reads_only
        (writes_other (not_final l.indexes key e other final h (ap is_retention_terminal s)))
  plan_state-spares name req lease_ms EffectStatus.in_progress other s h =
      PlanSpares-if e _ _ _ reads_only
        (writes_other (not_final l.indexes key e other final h (ap is_retention_terminal s)))

  plan-spares :
      (name : Str) (req : AcquireEffectRequest) (o : Option EffectRecord) (plan : Plan)
      → IsFresh env l
      → find_effect (acquire_key scope name req) l.indexes ≡ o
      → PlanFrom p env scope name req l o plan
      → PlanSpares e plan
  unfolding new_plan
  plan-spares name req none plan fresh found (creates lease_ms checked same) =
      rw same (writes_other (λ (id : env.new_id ≡ e.id). cc (fresh.no_effect, final.there, id)))
  plan-spares name req (some other) plan fresh found (existing lease_ms matches same) = rw same (
      plan_state-spares name req lease_ms other.state other refl
        (find_effect-Found p l.indexes (acquire_key scope name req) sound other found).there)

  run_plan-IsFinal :
      (plan : Result Plan)
      → PlanFits l.indexes plan
      → ((q : Plan) → plan ≡ ok q → PlanSpares e q)
      → IsFinal key e (run_plan p env scope plan l).1.indexes
  unfolding run_plan
  run_plan-IsFinal plan refused spares = final
  run_plan-IsFinal plan reads spares = final
  run_plan-IsFinal plan (writes {effect} {event_type} {detail} {decision} {token} fits) spares =
      rw
        (finish_plan-indexes effect decision token
          (persist_effect env effect (build_effect_event p env scope effect event_type detail l) l))
        (persist_effect-IsFinal p env l key e effect _ sound fits
          (spared e effect _ (spares _ refl) refl) final)

  pub acquire-IsFinal :
      (name : Str) (req : AcquireEffectRequest)
      → IsFresh env l
      → IsFinal key e (acquire p env scope name req l).1.indexes
  unfolding acquire
  acquire-IsFinal name req fresh =
      run_plan-IsFinal (acquire_plan p env scope name req l)
        (acquire_plan-fits p env scope name req l sound fresh)
        (λ q planned.
          plan-spares name req (find_effect (acquire_key scope name req) l.indexes) q fresh refl
            (acquire_plan-PlanFrom p env scope name req l q planned))

  legal_is_open :
      (t : EffectTransition) (state : EffectStatus)
      → legal t state ≡ true
      → is_retention_terminal state ≡ false
  unfolding legal is_retention_terminal
  legal_is_open t state h = ground arith

  run_transition-IsFinal :
      (id : Uuid) (req : UpdateEffectRequest) (capabilities : CallerCapabilities)
      (r : Result (EffectRecord × EffectRecord × Str))
      → transition_plan p env scope id req capabilities l ≡ r
      → IsFinal key e (run_transition p env scope req.transition r l).1.indexes
  unfolding run_transition
  run_transition-IsFinal id req capabilities (err x) planned = final
  run_transition-IsFinal id req capabilities (ok (old, next, event_type)) planned =
      let plan =
        transition_plan-Planned p env scope id req capabilities l old next event_type planned in
      let authorized = check_transition-Authorized p req capabilities old plan.checked in
      let (same_id, _) = next_effect-key env l req req.transition _ next event_type plan.stepped in
      let old_id : old.id ≡ id = sound.effect_ids_agree id old plan.there in
      let other : old.id ≢ e.id =
        not_final l.indexes key e old final (simp old_id plan.there)
          (legal_is_open req.transition old.state authorized.allowed) in
      rw
        (finish_transition-indexes next (
          persist_effect env next
            (build_effect_event p env scope next event_type
              (transition_detail old.state next.state req.transition) l)
            l))
        (persist_effect-IsFinal p env l key e next _ sound
          (transition_plan-fits p env scope id req capabilities l old next event_type sound planned)
          (λ same. other (sym same_id ∙ same)) final)

  pub transition-IsFinal :
      (id : Uuid) (req : UpdateEffectRequest) (capabilities : CallerCapabilities)
      → IsFinal key e (transition p env scope id req capabilities l).1.indexes
  unfolding transition
  transition-IsFinal id req capabilities =
      run_transition-IsFinal id req capabilities (transition_plan p env scope id req capabilities l)
        refl
