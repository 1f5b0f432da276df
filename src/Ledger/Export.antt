-- ===== src/Ledger/Export.antt =====
-- Reading one effect and the evidence of one run: calod/crates/calod-ledger/src/ledger.rs.
pub mod Evidence
use calod.Prelude.{
  ℕ, ◌+◌, Bool, true, false, ◌||◌, ◌&&◌, not, Option, none, some, List, [], ◌∷◌, Str, str_eq, map,
  keep, length, leb, nat_beq, nat_eq, opt_eq, if◌then◌else◌,
}
use calod.Prelude.Int.{leb_ℤ}
use calod.Prelude.Map.{get, values}
use calod.Ledger.Json.{str_leb}
use calod.Ledger.Model.{
  Uuid, Scope, Effect, EffectRecord, Event, EventRecord, Checkpoint, CheckpointRecord, RunExport,
  Result, ok, effect_view, run_view, event_view, checkpoint_view, ◌>>=◌,
}
use calod.Ledger.Indexes.{Indexes, entries_of}
use calod.Ledger.State.{Ledger, run_in_scope, effect_in_scope}

unfoldable pub get_effect : Scope → Uuid → Ledger → Result Effect
get_effect scope effect_id l = do
  effect ← effect_in_scope scope effect_id l
  ok (effect_view effect)

-- `(e.created_at.clone(), e.id)`, in order.
unfoldable pub effect_leb : Effect → Effect → Bool
effect_leb a b =
    if str_eq a.created_at b.created_at then leb a.id b.id else str_leb a.created_at b.created_at

unfoldable pub checkpoint_leb : Checkpoint → Checkpoint → Bool
checkpoint_leb a b = leb_ℤ a.event_sequence b.event_sequence

-- `sort_by_key`, which is stable.
module _ {A : Type 0} (before : A → A → Bool) where
  unfoldable pub insert_by : A → List A → List A
  insert_by a [] = a ∷ []
  insert_by a (b ∷ bs) = if before a b then a ∷ b ∷ bs else b ∷ insert_by a bs

  unfoldable pub sort_by : List A → List A
  unfolding insert_by
  sort_by [] = []
  sort_by (a ∷ as') = insert_by a (sort_by as')

unfoldable pub of_run : Uuid → EffectRecord → Bool
of_run run_id e = opt_eq nat_beq e.run_id (some run_id)

unfoldable pub export_run : Scope → Uuid → Ledger → Result RunExport
unfolding sort_by effect_leb checkpoint_leb of_run entries_of
export_run scope run_id l = do
  run ← run_in_scope scope run_id l
  ok (record {
    run = run_view run;
    effects =
        sort_by effect_leb
          (map effect_view (keep (of_run run_id) (values l.indexes.effects_by_id)));
    events = map event_view (entries_of (get run_id l.indexes.events));
    checkpoints =
        sort_by checkpoint_leb
          (map checkpoint_view (entries_of (get run_id l.indexes.checkpoints)));
  })
