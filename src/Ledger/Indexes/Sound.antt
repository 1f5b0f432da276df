-- ===== src/Ledger/Indexes/Sound.antt =====
-- What holds of the indexes between two log records, and which records fit them.
use calod.Prelude.{◌+◌, ◌≡◌, ◌⊎◌, true, none, some, List, [], map, length, nat_eq}
use calod.Prelude.Int.{pos}
use calod.Prelude.Map.{get}
use calod.Ledger.Json.{Platform}
use calod.Ledger.Model.{Uuid, EffectRecord, RunRecord, EventRecord, event_view}
use calod.Ledger.Chain.{verify_event_chain}
use calod.Ledger.Chain.Extend.{Extends}
use calod.Ledger.Indexes.{
  Indexes, EffectKey, key_eq, effect_key_of, entries_of, last_hash, RecordKind, run_created,
  run_updated, effect_applied, event_appended, checkpoint_created, retention_applied,
}

-- The timeline of a run.
abbrev pub timeline : Uuid → Indexes → List EventRecord
timeline r ix = entries_of (get r ix.events)

-- The head that a run records is the end of a timeline.
pub record HeadIs (run : RunRecord) (events : List EventRecord) : Type 0 where
  pub last_sequence : run.last_event_sequence ≡ pos (length events)
  pub head : run.head_hash ≡ last_hash events

-- What an entry of `effect_ids` leads to.
abbrev pub Named : EffectKey → Uuid → Indexes → Type 0
Named key id ix = (e : EffectRecord) × (get id ix.effects_by_id ≡ some e) × (effect_key_of e ≡ key)

pub record IsSound (p : Platform) (ix : Indexes) : Type 0 where
  pub heads : (r : Uuid) (run : RunRecord) → get r ix.runs ≡ some run → HeadIs run (timeline r ix)
  pub run_ids : (r : Uuid) (run : RunRecord) → get r ix.runs ≡ some run → run.id ≡ r
  pub orphans : (r : Uuid) → get r ix.runs ≡ none → timeline r ix ≡ []
  pub chains : (r : Uuid) → verify_event_chain p (map event_view (timeline r ix)) ≡ true
  pub effect_ids_agree :
      (id : Uuid) (e : EffectRecord) → get id ix.effects_by_id ≡ some e → e.id ≡ id
  pub keyed :
      (id : Uuid) (e : EffectRecord)
      → get id ix.effects_by_id ≡ some e
      → get (effect_key_of e) ix.effect_ids ≡ some id
  pub named : (key : EffectKey) (id : Uuid) → get key ix.effect_ids ≡ some id → Named key id ix

-- An event that the code can append next.
pub record FitsEvent (p : Platform) (ix : Indexes) (e : EventRecord) : Type 0 where
  pub run : RunRecord
  pub there : get e.run_id ix.runs ≡ some run
  pub extends : Extends p (length (timeline e.run_id ix) + 1) (last_hash (timeline e.run_id ix)) e

-- An effect is new, with a new key, or keeps its key.
abbrev pub FitsEffect : Indexes → EffectRecord → Type 0
FitsEffect ix e =
    ((get e.id ix.effects_by_id ≡ none) × (get (effect_key_of e) ix.effect_ids ≡ none))
    ⊎ ((old : EffectRecord) × (get e.id ix.effects_by_id ≡ some old)
        × (effect_key_of e ≡ effect_key_of old))

abbrev pub Fits : Platform → Indexes → RecordKind → Type 0
Fits p ix (run_created run) = (get run.id ix.runs ≡ none) × HeadIs run []
Fits p ix (run_updated run) =
    (old : RunRecord) × (get run.id ix.runs ≡ some old) × HeadIs run (timeline run.id ix)
Fits p ix (effect_applied e none) = FitsEffect ix e
Fits p ix (effect_applied e (some event)) = FitsEffect ix e × FitsEvent p ix event
Fits p ix (event_appended event) = FitsEvent p ix event
Fits p ix (checkpoint_created c) = Unit {0}
Fits p ix (retention_applied cutoff runs effects) = Unit {0}
