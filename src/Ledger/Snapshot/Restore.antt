-- ===== src/Ledger/Snapshot/Restore.antt =====
-- About loading the state that was collected.
use calod.Prelude.{
  ◌≡◌, refl, ◌∙◌, ap, Option, none, some, List, [], ◌∷◌, nat_eq, Bool-cases, inl, inr,
}
use calod.Prelude.Map.{Map, get, values}
use calod.Ledger.Model.{Uuid, EffectRecord, RunRecord, EventRecord, CheckpointRecord}
use calod.Ledger.Indexes.{
  Indexes, EffectKey, key_beq_iff, key_eq, effect_key_of, put_effect, put_run, empty_indexes,
}
use calod.Ledger.Indexes.Sound.{IsSound}
use calod.Ledger.Indexes.Tidy.{IsTidy}
use calod.Ledger.Json.{Platform}
use calod.Ledger.State.{Ledger}
use calod.Ledger.Consistency.Persist.{IsConsistent, IsConsistent-IsTidy}
use calod.Ledger.Snapshot.{
  PersistedState, collect_state, load_runs, load_effects, load_events, load_checkpoints, load_state,
  grouped,
}
use calod.Ledger.Snapshot.Insertions.{
  insert_all, get-insert_all, insert_keys, get-insert_keys, any-there, any-absent, has_key, or_else,
}

-- The loops of `load_effects` and `load_runs` are these insertions.
loaded_effects :
    (es : List EffectRecord) (ix : Indexes)
    → ((load_effects es ix).effects_by_id ≡ insert_all (λ e. e.id) es ix.effects_by_id)
      × ((load_effects es ix).effect_ids ≡ insert_keys es ix.effect_ids)
      × ((load_effects es ix).runs ≡ ix.runs)
unfolding load_effects insert_all insert_keys
loaded_effects [] ix = (refl, refl, refl)
loaded_effects (e ∷ es) ix = loaded_effects es (put_effect e ix)

loaded_runs :
    (runs : List RunRecord) (ix : Indexes)
    → ((load_runs runs ix).runs ≡ insert_all (λ r. r.id) runs ix.runs)
      × ((load_runs runs ix).effects_by_id ≡ ix.effects_by_id)
      × ((load_runs runs ix).effect_ids ≡ ix.effect_ids)
unfolding load_runs insert_all
loaded_runs [] ix = (refl, refl, refl)
loaded_runs (r ∷ runs) ix = loaded_runs runs (put_run r ix)

-- The maps that loading the events and the checkpoints leaves alone.
abbrev SameEffects : Indexes → Indexes → Type 0
SameEffects a b =
    (a.effects_by_id ≡ b.effects_by_id) × (a.effect_ids ≡ b.effect_ids) × (a.runs ≡ b.runs)

events-SameEffects :
    (groups : Map Uuid (List EventRecord)) (ix : Indexes) → SameEffects (load_events groups ix) ix
unfolding load_events
events-SameEffects [] ix = (refl, refl, refl)
events-SameEffects ((r, events) ∷ groups) ix = events-SameEffects groups _

checkpoints-SameEffects :
    (groups : Map Uuid (List CheckpointRecord)) (ix : Indexes)
    → SameEffects (load_checkpoints groups ix) ix
unfolding load_checkpoints
checkpoints-SameEffects [] ix = (refl, refl, refl)
checkpoints-SameEffects ((r, checkpoints) ∷ groups) ix = checkpoints-SameEffects groups _

loaded_state :
    (s : PersistedState)
    → ((load_state s empty_indexes).effects_by_id ≡ insert_all (λ e. e.id) s.effects [])
      × ((load_state s empty_indexes).effect_ids ≡ insert_keys s.effects [])
      × ((load_state s empty_indexes).runs ≡ insert_all (λ r. r.id) s.runs [])
unfolding load_state
loaded_state s =
    let (runs_1, effects_1, keys_1) = loaded_runs s.runs empty_indexes in
    let l_1 = load_runs s.runs empty_indexes in
    let (effects_2, keys_2, runs_2) = loaded_effects s.effects l_1 in
    let l_2 = load_effects s.effects l_1 in
    let events = grouped (λ e. e.run_id) s.events [] in
    let (effects_3, keys_3, runs_3) = events-SameEffects events l_2 in
    let (effects_4, keys_4, runs_4) =
      checkpoints-SameEffects (grouped (λ c. c.run_id) s.checkpoints []) (load_events events l_2) in
    (
      effects_4 ∙ (effects_3 ∙ (effects_2 ∙ ap (insert_all (λ e. e.id) s.effects) effects_1)),
      keys_4 ∙ (keys_3 ∙ (keys_2 ∙ ap (insert_keys s.effects) keys_1)),
      runs_4 ∙ (runs_3 ∙ (runs_2 ∙ runs_1)),
    )

-- Two indexes hold the same effects, keys and runs.
pub record Restores (before after : Indexes) : Type 0 where
  pub effects : (id : Uuid) → get id after.effects_by_id ≡ get id before.effects_by_id
  pub keys : (key : EffectKey) → get key after.effect_ids ≡ get key before.effect_ids
  pub runs : (r : Uuid) → get r after.runs ≡ get r before.runs

or_else-none : {A : Type 0} (o : Option A) → or_else o none ≡ o
or_else-none none = refl
or_else-none (some a) = refl

module _ (p : Platform) (ix : Indexes) (sound : IsSound p ix) (tidy : IsTidy ix) where
  get-keys :
      (key : EffectKey) (o : Option Uuid)
      → get key ix.effect_ids ≡ o
      → get key (insert_keys (values ix.effects_by_id) []) ≡ o
  unfolding get
  get-keys key none absent =
      get-insert_keys ix.effects_by_id key 0 [] tidy.effects_by_id
        (λ k e there same. absurd (cc (sound.keyed k e there, same, absent)))
      ∙ rw
          (any-absent (has_key key) ix.effects_by_id tidy.effects_by_id (λ k e there.
            elim (Bool-cases (has_key key e)) [
              | inl hit ↦
                  let same = (key_beq_iff (effect_key_of e) key).0 hit in
                  absurd (cc (sound.keyed k e there, same, absent))
              | inr miss ↦ miss
            ]))
          refl
  get-keys key (some id) named =
      let (e, there, own) = sound.named key id named in
      get-insert_keys ix.effects_by_id key id [] tidy.effects_by_id (λ k f f_there same.
        let k_id : k ≡ id = cc (sound.keyed k f f_there, same, named) in
        sound.effect_ids_agree k f f_there ∙ k_id)
      ∙ rw
          (any-there (has_key key) ix.effects_by_id id e there
            ((key_beq_iff (effect_key_of e) key).1 own))
          refl

  -- Loading the collected state of a sound and tidy index.
  loaded-Restores : Restores ix (load_state (collect_state ix) empty_indexes)
  unfolding collect_state get
  loaded-Restores =
      let (effects, keys, runs) = loaded_state (collect_state ix) in
      record {
        effects = λ id.
            ap (get id) effects
            ∙ (get-insert_all (λ e. e.id) ix.effects_by_id id [] tidy.effects_by_id
                  sound.effect_ids_agree
                ∙ or_else-none (get id ix.effects_by_id));
        keys = λ key. ap (get key) keys ∙ get-keys key (get key ix.effect_ids) refl;
        runs = λ r.
            ap (get r) runs
            ∙ (get-insert_all (λ r. r.id) ix.runs r [] tidy.runs sound.run_ids
                ∙ or_else-none (get r ix.runs));
      }

-- Loading what was collected from a consistent ledger, as a start from a snapshot does, restores
-- every effect under its identifier, every key, and every run.
pub load_state-collect_state :
    (p : Platform) (l : Ledger)
    → IsConsistent p l
    → Restores l.indexes (load_state (collect_state l.indexes) empty_indexes)
load_state-collect_state p l c = loaded-Restores p l.indexes c.sound (IsConsistent-IsTidy p l c)
