-- ===== src/Ledger/Indexes.antt =====
-- The in-memory indexes and the log records: calod/crates/calod-ledger/src/ledger.rs and record.rs.
-- The locks (`run_locks`) are not data: a step of the model holds the locks that its code holds.
pub mod Sound
pub mod Puts
pub mod Events
pub mod Prunes
pub mod Apply
pub mod Tidy
use calod.Prelude.{
  ℕ, ◌+◌, ◌≡◌, refl, Bool, true, false, Option, none, some, List, [], ◌∷◌, ◌++◌, Str, str_eq, ◌&&◌,
  if◌then◌else◌, length, any, keep, nat_beq, Eq, nat_eq, str_eq_iff, arith, ◌↔◌, map,
}
use calod.Prelude.Int.{ℤ, pos, leb_ℤ, eq_ℤ}
use calod.Prelude.Map.{Map, get, insert, remove, values}
use calod.Ledger.Digest.{genesis_hash}
use calod.Ledger.Model.{
  Uuid, EffectRecord, RunRecord, EventRecord, CheckpointRecord, PersistenceError, corruption,
}

pub record EffectKey : Type 0 where
  pub tenant_id : Str
  pub project_id : Str
  pub scope : Str
  pub idempotency_key : Str

unfoldable pub key_beq : EffectKey → EffectKey → Bool
key_beq a b =
    str_eq a.tenant_id b.tenant_id
    && (str_eq a.project_id b.project_id
        && (str_eq a.scope b.scope && str_eq a.idempotency_key b.idempotency_key))

pub key_beq_iff : (a b : EffectKey) → (key_beq a b ≡ true) ↔ (a ≡ b)
unfolding key_beq
key_beq_iff a b = (
  λ h. ground (
    arith,
    str_eq_iff a.tenant_id b.tenant_id,
    str_eq_iff a.project_id b.project_id,
    str_eq_iff a.scope b.scope,
    str_eq_iff a.idempotency_key b.idempotency_key,
  ),
  λ h. ground (
    arith,
    str_eq_iff a.tenant_id b.tenant_id,
    str_eq_iff a.project_id b.project_id,
    str_eq_iff a.scope b.scope,
    str_eq_iff a.idempotency_key b.idempotency_key,
  ),
)

instance abbrev pub key_eq : Eq EffectKey
key_eq = record { beq = key_beq; beq_iff = key_beq_iff }

unfoldable pub effect_key_of : EffectRecord → EffectKey
effect_key_of e = record {
  tenant_id = e.tenant_id;
  project_id = e.project_id;
  scope = e.scope;
  idempotency_key = e.idempotency_key;
}

pub record Indexes : Type 0 where
  pub effects_by_id : Map Uuid EffectRecord
  pub effect_ids : Map EffectKey Uuid
  pub runs : Map Uuid RunRecord
  pub events : Map Uuid (List EventRecord)
  pub checkpoints : Map Uuid (List CheckpointRecord)

abbrev pub empty_indexes : Indexes
empty_indexes = record {
  effects_by_id = [];
  effect_ids = [];
  runs = [];
  events = [];
  checkpoints = [];
}

-- record.rs
pub data RecordKind : Type 0 where
  run_created : RunRecord → RecordKind
  run_updated : RunRecord → RecordKind
  effect_applied : EffectRecord → Option EventRecord → RecordKind
  event_appended : EventRecord → RecordKind
  checkpoint_created : CheckpointRecord → RecordKind
  retention_applied : ℤ → List Uuid → List Uuid → RecordKind

-- A mutation that can fail half-way leaves what it has written.
abbrev pub Applied : Type 0
Applied = Option PersistenceError × Indexes

-- `entry(key).or_default()` of a map to lists.
unfoldable pub entries_of {ℓ} : {A : Type ℓ} → Option (List A) → List A
entries_of none = []
entries_of (some xs) = xs

-- `events.last().map(|e| e.hash.clone()).unwrap_or_else(GENESIS_HASH)`
unfoldable pub last_hash : List EventRecord → Str
last_hash [] = genesis_hash
last_hash (e ∷ []) = e.hash
last_hash (e ∷ f ∷ es) = last_hash (f ∷ es)

-- The run's head after an event, if the run is there.
unfoldable pub advance_head :
    EventRecord → Option RunRecord → Map Uuid RunRecord → Map Uuid RunRecord
advance_head event none runs = runs
advance_head event (some run) runs =
    insert event.run_id
      (record run { last_event_sequence = event.sequence; head_hash = event.hash }) runs

unfoldable pub apply_event : EventRecord → Indexes → Applied
unfolding advance_head entries_of
apply_event event ix =
    let events = entries_of (get event.run_id ix.events) in
    let opened = record ix { events = insert event.run_id events ix.events } in
    if leb_ℤ event.sequence (pos (length events))
    then (none, opened)
    else if eq_ℤ event.sequence (pos (length events + 1))
    then (if str_eq event.previous_hash (last_hash events)
        then (
          none,
          record opened {
            runs = advance_head event (get event.run_id ix.runs) ix.runs;
            events = insert event.run_id (events ++ event ∷ []) ix.events;
          },
        )
        else (some corruption, opened))
    else (some corruption, opened)

unfoldable pub put_effect : EffectRecord → Indexes → Indexes
put_effect effect ix = record ix {
  effect_ids = insert (effect_key_of effect) effect.id ix.effect_ids;
  effects_by_id = insert effect.id effect ix.effects_by_id;
}

unfoldable pub put_run : RunRecord → Indexes → Indexes
put_run run ix = record ix { runs = insert run.id run ix.runs }

unfoldable pub add_checkpoint : CheckpointRecord → List CheckpointRecord → List CheckpointRecord
add_checkpoint c cs = if any (λ d. nat_beq d.id c.id) cs then cs else cs ++ c ∷ []

-- The loops over the identifiers that retention prunes.
unfoldable pub prune_runs : List Uuid → Indexes → Indexes
prune_runs [] ix = ix
prune_runs (r ∷ rs) ix = prune_runs rs (record ix {
  runs = remove r ix.runs;
  events = remove r ix.events;
  checkpoints = remove r ix.checkpoints;
})

unfoldable pub prune_effect : Uuid → Option EffectRecord → Indexes → Indexes
prune_effect id none ix = ix
prune_effect id (some effect) ix = record ix {
  effects_by_id = remove id ix.effects_by_id;
  effect_ids = remove (effect_key_of effect) ix.effect_ids;
}

unfoldable pub prune_effects : List Uuid → Indexes → Indexes
unfolding prune_effect
prune_effects [] ix = ix
prune_effects (e ∷ es) ix = prune_effects es (prune_effect e (get e ix.effects_by_id) ix)

unfoldable pub apply : RecordKind → Indexes → Applied
unfolding put_run put_effect add_checkpoint entries_of
apply (run_created run) ix = (none, put_run run ix)
apply (run_updated run) ix = (none, put_run run ix)
apply (effect_applied effect none) ix = (none, put_effect effect ix)
apply (effect_applied effect (some event)) ix = apply_event event (put_effect effect ix)
apply (event_appended event) ix = apply_event event ix
apply (checkpoint_created c) ix = (
  none,
  record ix {
    checkpoints =
        insert c.run_id (add_checkpoint c (entries_of (get c.run_id ix.checkpoints)))
          ix.checkpoints;
  },
)
apply (retention_applied cutoff run_ids effect_ids) ix =
    (none, prune_effects effect_ids (prune_runs run_ids ix))

-- The loop of `Ledger::open` over the decoded log records: the first failure refuses the log.
unfoldable pub replay : List RecordKind → Indexes → Applied
replay [] ix = (none, ix)
replay (k ∷ ks) ix =
    let rest = replay ks (apply k ix).1 in
    elim (apply k ix).0 [ none ↦ rest | some e ↦ (some e, (apply k ix).1) ]
