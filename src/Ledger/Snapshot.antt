-- ===== src/Ledger/Snapshot.antt =====
-- The state of a snapshot: calod/crates/calod-ledger/src/ledger.rs and snapshot.rs. The files, their
-- checksums and the manifest are not modelled.
pub mod Insertions
pub mod Restore
use calod.Prelude.{ℕ, List, [], ◌∷◌, ◌++◌, nat_eq, if◌then◌else◌}
use calod.Prelude.Int.{leb_ℤ}
use calod.Prelude.Map.{Map, get, insert, values}
use calod.Ledger.Model.{
  Uuid, schema_version_1, EffectRecord, RunRecord, EventRecord, CheckpointRecord,
}
use calod.Ledger.Indexes.{Indexes, entries_of, put_effect, put_run}
use calod.Ledger.Export.{sort_by}

pub record PersistedState : Type 0 where
  pub schema_version : ℕ
  pub runs : List RunRecord
  pub effects : List EffectRecord
  pub events : List EventRecord
  pub checkpoints : List CheckpointRecord

-- `extend` over the entries of a map of lists.
unfoldable pub concat {ℓ} : {A : Type ℓ} → List (List A) → List A
concat [] = []
concat (xs ∷ xss) = xs ++ concat xss

unfoldable pub collect_state : Indexes → PersistedState
unfolding concat
collect_state ix = record {
  schema_version = schema_version_1;
  runs = values ix.runs;
  effects = values ix.effects_by_id;
  events = concat (values ix.events);
  checkpoints = concat (values ix.checkpoints);
}

unfoldable pub load_runs : List RunRecord → Indexes → Indexes
unfolding put_run
load_runs [] ix = ix
load_runs (run ∷ runs) ix = load_runs runs (put_run run ix)

unfoldable pub load_effects : List EffectRecord → Indexes → Indexes
unfolding put_effect
load_effects [] ix = ix
load_effects (effect ∷ effects) ix = load_effects effects (put_effect effect ix)

-- `entry(key).or_default().push(item)`, over the items.
unfoldable pub grouped : {A : Type 0} → (A → Uuid) → List A → Map Uuid (List A) → Map Uuid (List A)
unfolding entries_of
grouped key_of [] groups = groups
grouped key_of (a ∷ as') groups =
    grouped key_of as' (insert (key_of a) (entries_of (get (key_of a) groups) ++ a ∷ []) groups)

unfoldable pub sort_events : List EventRecord → List EventRecord
unfolding sort_by
sort_events = sort_by (λ a b. leb_ℤ a.sequence b.sequence)

unfoldable pub load_events : Map Uuid (List EventRecord) → Indexes → Indexes
unfolding sort_events
load_events [] ix = ix
load_events ((r, events) ∷ groups) ix =
    load_events groups (record ix { events = insert r (sort_events events) ix.events })

unfoldable pub load_checkpoints : Map Uuid (List CheckpointRecord) → Indexes → Indexes
load_checkpoints [] ix = ix
load_checkpoints ((r, checkpoints) ∷ groups) ix =
    load_checkpoints groups (record ix { checkpoints = insert r checkpoints ix.checkpoints })

unfoldable pub load_state : PersistedState → Indexes → Indexes
unfolding load_runs load_effects load_events load_checkpoints grouped
load_state state ix = load_checkpoints (grouped (λ c. c.run_id) state.checkpoints []) (
    load_events (grouped (λ e. e.run_id) state.events [])
      (load_effects state.effects (load_runs state.runs ix)))
