-- ===== src/Ledger/Consistency/Effects.antt =====
-- About `acquire` and `transition` and the consistency of the ledger.
use calod.Prelude.{
  ◌≡◌, refl, sym, ap, ◌∙◌, Bool, true, false, Option, none, some, nat_eq, Str, inl, inr,
  if◌then◌else◌,
}
use calod.Prelude.Int.{ℤ}
use calod.Prelude.Map.{get}
use calod.Ledger.Json.{Platform, Value}
use calod.Ledger.Model.{
  Uuid, Scope, EffectStatus, EffectRecord, EffectDecisionType, EffectDecision, AcquireEffectRequest,
  LedgerError, Result, ok, err, ◌>>=◌,
}
use calod.Ledger.Indexes.{Indexes, EffectKey, key_eq, effect_key_of}
use calod.Ledger.Indexes.Sound.{IsSound, FitsEffect}
use calod.Ledger.State.{Env, Ledger, resolve_lease_ms}
use calod.Ledger.Validate.{validate_effect_fields}
use calod.Ledger.Acquire.{
  Plan, decide, apply_effect, plan_state, plan_existing, plan_new, plan_for, acquire_key,
  find_effect, acquire_plan, finish_plan, run_plan, acquire, check_run,
}
use calod.Ledger.Consistency.Persist.{IsConsistent, HasRoom}
use calod.Ledger.Consistency.Events.{persist_effect-IsConsistent}

-- The identifier that a call draws is new.
pub record IsFresh (env : Env) (l : Ledger) : Type 0 where
  pub no_effect : get env.new_id l.indexes.effects_by_id ≡ none
  pub no_run : get env.new_id l.indexes.runs ≡ none

-- A plan that writes only an effect that fits.
pub data PlanFits (ix : Indexes) : Result Plan → Type 0 where
  refused : {e : LedgerError} → PlanFits ix (err e)
  reads : {d : EffectDecision} → PlanFits ix (ok (decide d))
  writes :
      {effect : EffectRecord} {event_type : Str} {detail : Value} {decision : EffectDecisionType}
      {token : Option Str}
      → FitsEffect ix effect
      → PlanFits ix (ok (apply_effect effect event_type detail decision token))

-- `find_effect` finds the effect that has the key.
pub record Found (ix : Indexes) (key : EffectKey) (effect : EffectRecord) : Type 0 where
  pub there : get effect.id ix.effects_by_id ≡ some effect
  pub same_key : effect_key_of effect ≡ key

find_effect_cases :
    (p : Platform) (ix : Indexes) (key : EffectKey) (o : Option Uuid)
    → IsSound p ix
    → get key ix.effect_ids ≡ o
    → (effect : EffectRecord) → find_effect key ix ≡ some effect
    → Found ix key effect
unfolding find_effect
find_effect_cases p ix key none sound e effect h = absurd (cc (rw (e, find_effect) at h))
find_effect_cases p ix key (some id) sound e effect h =
    let there : get id ix.effects_by_id ≡ some effect = rw (e, find_effect) at h in
    let (other, other_there, same) = sound.named key id e in
    let eq : other ≡ effect = cc (there, other_there) in
    let id_eq : effect.id ≡ id = sound.effect_ids_agree id effect there in
    record { there = simp id_eq there; same_key = ap effect_key_of (sym eq) ∙ same }

pub find_effect-Found :
    (p : Platform) (ix : Indexes) (key : EffectKey)
    → IsSound p ix
    → (effect : EffectRecord) → find_effect key ix ≡ some effect
    → Found ix key effect
find_effect-Found p ix key sound = find_effect_cases p ix key (get key ix.effect_ids) sound refl

find_none_cases :
    (p : Platform) (ix : Indexes) (key : EffectKey) (o : Option Uuid)
    → IsSound p ix
    → get key ix.effect_ids ≡ o
    → find_effect key ix ≡ none
    → get key ix.effect_ids ≡ none
unfolding find_effect
find_none_cases p ix key none sound e h = e
find_none_cases p ix key (some id) sound e h =
    let none_there : get id ix.effects_by_id ≡ none = rw (e, find_effect) at h in
    let (other, other_there, same) = sound.named key id e in absurd (cc (none_there, other_there))

-- A key that leads to no effect is not in `effect_ids`.
pub find_effect-none :
    (p : Platform) (ix : Indexes) (key : EffectKey)
    → IsSound p ix
    → find_effect key ix ≡ none
    → get key ix.effect_ids ≡ none
find_effect-none p ix key sound = find_none_cases p ix key (get key ix.effect_ids) sound refl

PlanFits-if :
    (ix : Indexes) (b : Bool) (x y : Plan)
    → PlanFits ix (ok x)
    → PlanFits ix (ok y)
    → PlanFits ix (ok (if b then x else y))
PlanFits-if ix true x y hx hy = hx
PlanFits-if ix false x y hx hy = hy

PlanFits-if_ok :
    (ix : Indexes) (b : Bool) (x y : Result Plan)
    → PlanFits ix x
    → PlanFits ix y
    → PlanFits ix (if b then x else y)
PlanFits-if_ok ix true x y hx hy = hx
PlanFits-if_ok ix false x y hx hy = hy

PlanFits-bind {ℓ} :
    {A : Type ℓ} (ix : Indexes) (m : Result A) (f : A → Result Plan)
    → ((a : A) → PlanFits ix (f a))
    → PlanFits ix (m >>= f)
PlanFits-bind ix (ok a) f h = h a
PlanFits-bind ix (err e) f h = refused

module _ (p : Platform) (env : Env) (scope : Scope) (idempotency_key : Str)
    (req : AcquireEffectRequest) (l : Ledger) where
  plan_state-fits :
      (lease_ms : ℤ) (state : EffectStatus) (effect : EffectRecord)
      → get effect.id l.indexes.effects_by_id ≡ some effect
      → PlanFits l.indexes (ok (plan_state p env scope idempotency_key req lease_ms state effect))
  unfolding plan_state effect_key_of
  plan_state-fits lease_ms EffectStatus.committed effect h = reads
  plan_state-fits lease_ms EffectStatus.reconciled_committed effect h = reads
  plan_state-fits lease_ms EffectStatus.failed_terminal effect h = reads
  plan_state-fits lease_ms EffectStatus.reconciled_failed effect h = reads
  plan_state-fits lease_ms EffectStatus.outcome_unknown effect h = reads
  plan_state-fits lease_ms EffectStatus.failed_retryable effect h = writes (inr (effect, h, refl))
  plan_state-fits lease_ms EffectStatus.claimed effect h =
      PlanFits-if l.indexes _ _ _ reads (writes (inr (effect, h, refl)))
  plan_state-fits lease_ms EffectStatus.in_progress effect h =
      PlanFits-if l.indexes _ _ _ reads (writes (inr (effect, h, refl)))

  plan_existing-fits :
      (lease_ms : ℤ) (effect : EffectRecord)
      → get effect.id l.indexes.effects_by_id ≡ some effect
      → PlanFits l.indexes (plan_existing p env scope idempotency_key req lease_ms effect)
  unfolding plan_existing
  plan_existing-fits lease_ms effect h =
      PlanFits-if_ok l.indexes _ _ _ refused (plan_state-fits lease_ms effect.state effect h)

  plan_new-fits :
      (lease_ms : ℤ) (r : Result (Unit {0}))
      → get env.new_id l.indexes.effects_by_id ≡ none
      → get (acquire_key scope idempotency_key req) l.indexes.effect_ids ≡ none
      → check_run scope req.run_id l ≡ r
      → PlanFits l.indexes (plan_new p env scope idempotency_key req lease_ms l)
  unfolding plan_new acquire_key effect_key_of
  plan_new-fits lease_ms (err e) fresh unnamed h = rw (h, plan_new) refused
  plan_new-fits lease_ms (ok u) fresh unnamed h = rw (h, plan_new) (writes (inl (fresh, unnamed)))

  plan_for-fits :
      (lease_ms : ℤ) (o : Option EffectRecord)
      → IsSound p l.indexes
      → IsFresh env l
      → find_effect (acquire_key scope idempotency_key req) l.indexes ≡ o
      → PlanFits l.indexes (plan_for p env scope idempotency_key req lease_ms o l)
  unfolding plan_for
  plan_for-fits lease_ms none sound fresh h =
      plan_new-fits lease_ms (check_run scope req.run_id l) fresh.no_effect
        (find_effect-none p l.indexes (acquire_key scope idempotency_key req) sound h) refl
  plan_for-fits lease_ms (some effect) sound fresh h =
      plan_existing-fits lease_ms effect
        (find_effect-Found p l.indexes (acquire_key scope idempotency_key req) sound effect h).there

  pub acquire_plan-fits :
      IsSound p l.indexes
      → IsFresh env l
      → PlanFits l.indexes (acquire_plan p env scope idempotency_key req l)
  unfolding acquire_plan
  acquire_plan-fits sound fresh =
      PlanFits-bind l.indexes (validate_effect_fields req.scope idempotency_key req.tool_name) _
        (λ _. PlanFits-bind l.indexes (resolve_lease_ms req.lease_duration_seconds l) _ (λ lease_ms.
          plan_for-fits lease_ms (find_effect (acquire_key scope idempotency_key req) l.indexes)
            sound fresh refl))

-- The counters and the answer play no part in consistency.
finish_plan-IsConsistent :
    (p : Platform) (effect : EffectRecord) (decision : EffectDecisionType) (token : Option Str)
    (r : Result (Unit {0}) × Ledger)
    → IsConsistent p r.1
    → IsConsistent p (finish_plan effect decision token r).1
unfolding finish_plan
finish_plan-IsConsistent p effect decision token (err e, l) c = c
finish_plan-IsConsistent p effect decision token (ok u, l) c = record {
  sound = c.sound;
  replays = c.replays;
}

run_plan-IsConsistent :
    (p : Platform) (env : Env) (scope : Scope) (plan : Result Plan) (l : Ledger)
    → IsConsistent p l
    → HasRoom l
    → PlanFits l.indexes plan
    → IsConsistent p (run_plan p env scope plan l).1
unfolding run_plan
run_plan-IsConsistent p env scope plan l c space refused = c
run_plan-IsConsistent p env scope plan l c space reads = record {
  sound = c.sound;
  replays = c.replays;
}
run_plan-IsConsistent p env scope plan l c space
      (writes {effect} {event_type} {detail} {decision} {token} fits) =
    finish_plan-IsConsistent p effect decision token _
      (persist_effect-IsConsistent p env scope l c space effect event_type detail fits)

-- Whatever is asked, and whatever the log writer answers.
pub acquire-IsConsistent :
    (p : Platform) (env : Env) (scope : Scope) (idempotency_key : Str) (req : AcquireEffectRequest)
    (l : Ledger)
    → IsConsistent p l
    → HasRoom l
    → IsFresh env l
    → IsConsistent p (acquire p env scope idempotency_key req l).1
unfolding acquire
acquire-IsConsistent p env scope idempotency_key req l c space fresh =
    run_plan-IsConsistent p env scope (acquire_plan p env scope idempotency_key req l) l c space
      (acquire_plan-fits p env scope idempotency_key req l c.sound fresh)
