-- ===== src/Ledger/Lifecycle/Stored.antt =====
-- What persisting an effect leaves in the maps of effects.
use calod.Prelude.{◌≡◌, refl, Option, none, some, ◌∷◌, [], ◌++◌, nat_eq, arith, nat_beq_iff, Str}
use calod.Prelude.Map.{get, insert, get-insert}
use calod.Ledger.Model.{
  EffectRecord, EventRecord, EffectDecision, EffectDecisionType, effect_view, Result, ok, err,
}
use calod.Ledger.Indexes.{
  Indexes, Applied, key_eq, effect_key_of, effect_applied, apply_event, apply, put_effect,
  RecordKind,
}
use calod.Ledger.State.{
  Env, Ledger, AppendOutcome, acknowledged, failed, settle, WalPosition, persist,
}
use calod.Ledger.Acquire.{persist_effect, finish_plan}

pub effects-apply_event :
    (e : EventRecord) (ix : Indexes)
    → ((apply_event e ix).1.effects_by_id ≡ ix.effects_by_id)
      × ((apply_event e ix).1.effect_ids ≡ ix.effect_ids)
unfolding apply_event
effects-apply_event e ix = ground arith

-- The maps of effects after `effect` was stored in `ix`.
pub record Stores (effect : EffectRecord) (ix after : Indexes) : Type 0 where
  pub by_id : after.effects_by_id ≡ insert effect.id effect ix.effects_by_id
  pub by_key : after.effect_ids ≡ insert (effect_key_of effect) effect.id ix.effect_ids

pub apply_effect-Stores :
    (effect : EffectRecord) (event : Option EventRecord) (ix : Indexes)
    → Stores effect ix (apply (effect_applied effect event) ix).1
unfolding apply put_effect
apply_effect-Stores effect none ix = record { by_id = refl; by_key = refl }
apply_effect-Stores effect (some e) ix =
    let (same_by_id, same_by_key) = effects-apply_event e (put_effect effect ix) in
    record { by_id = same_by_id; by_key = same_by_key }

pub settle-indexes :
    (position : WalPosition) (a : Applied) (l : Ledger) → (settle position a l).1.indexes ≡ a.1
unfolding settle
settle-indexes position (none, ix) l = refl
settle-indexes position (some e, ix) l = refl

persist_answer :
    (env : Env) (kind : RecordKind) (l : Ledger) (answer : AppendOutcome)
    → env.append ≡ answer
    → (persist env kind l).0 ≡ ok tt
    → (persist env kind l).1.indexes ≡ (apply kind l.indexes).1
unfolding persist
persist_answer env kind l (acknowledged position) e h =
    rw (e, persist)
      (settle-indexes position (apply kind l.indexes) (record l { log = l.log ++ kind ∷ [] }))
persist_answer env kind l (failed x) e h = absurd (cc (rw (e, persist) at h))

-- A record that was persisted was applied.
pub persist-ok :
    (env : Env) (kind : RecordKind) (l : Ledger)
    → (persist env kind l).0 ≡ ok tt
    → (persist env kind l).1.indexes ≡ (apply kind l.indexes).1
persist-ok env kind l = persist_answer env kind l env.append refl

pub persist_effect-ok :
    (env : Env) (effect : EffectRecord) (event : Result (Option EventRecord)) (l : Ledger)
    → (persist_effect env effect event l).0 ≡ ok tt
    → Stores effect l.indexes (persist_effect env effect event l).1.indexes
unfolding persist_effect
persist_effect-ok env effect (err e) l h = absurd (cc)
persist_effect-ok env effect (ok event) l h =
    rw (persist-ok env (effect_applied effect event) l h)
      (apply_effect-Stores effect event l.indexes)

-- The end of an applied plan that was not refused.
pub record Finished (effect : EffectRecord) (decision : EffectDecisionType) (token : Option Str)
    (d : EffectDecision) (before after : Indexes) : Type 0 where
  pub decided : d.decision ≡ decision
  pub seen : d.effect ≡ effect_view effect
  pub handed : d.lease_token ≡ token
  pub stores : Stores effect before after

finish_plan-ok :
    (effect : EffectRecord) (decision : EffectDecisionType) (token : Option Str)
    (d : EffectDecision) (before : Indexes) (r : Result (Unit {0}) × Ledger)
    → (finish_plan effect decision token r).0 ≡ ok d
    → (r.0 ≡ ok tt → Stores effect before r.1.indexes)
    → Finished effect decision token d before (finish_plan effect decision token r).1.indexes
unfolding finish_plan
finish_plan-ok effect decision token d before (err e, l) h stores = absurd (cc)
finish_plan-ok effect decision token d before (ok u, l) h stores = record {
  decided = cc;
  seen = cc;
  handed = cc;
  stores = stores refl;
}

pub finish_plan-Finished :
    (env : Env) (effect : EffectRecord) (decision : EffectDecisionType) (token : Option Str)
    (d : EffectDecision) (l : Ledger) (event : Result (Option EventRecord))
    → (finish_plan effect decision token (persist_effect env effect event l)).0 ≡ ok d
    → Finished effect decision token d l.indexes
        (finish_plan effect decision token (persist_effect env effect event l)).1.indexes
finish_plan-Finished env effect decision token d l event h =
    finish_plan-ok effect decision token d l.indexes (persist_effect env effect event l) h
      (persist_effect-ok env effect event l)

-- The effect that was stored is found under its identifier.
pub get-Stores :
    (effect : EffectRecord) (before after : Indexes)
    → Stores effect before after
    → get effect.id after.effects_by_id ≡ some effect
get-Stores effect before after s = rw (s.by_id) (
    ground (
      arith,
      get-insert effect.id effect.id effect before.effects_by_id,
      nat_beq_iff effect.id effect.id,
    ))
