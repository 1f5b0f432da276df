-- ===== src/Ledger/Indexes/Tidy.antt =====
-- About the keys of the maps of the indexes.
use calod.Prelude.{
  Option, none, some, List, [], ◌∷◌, ◌++◌, ◌+◌, length, str_eq, nat_eq, Bool, true, false,
  if◌then◌else◌,
}
use calod.Prelude.Int.{pos, leb_ℤ, eq_ℤ}
use calod.Prelude.Map.{Map, get, insert}
use calod.Prelude.Map.Distinct.{IsDistinct, empty, insert-IsDistinct, remove-IsDistinct}
use calod.Ledger.Model.{Uuid, EffectRecord, EventRecord, RunRecord, PersistenceError, corruption}
use calod.Ledger.Indexes.{
  Indexes, Applied, key_eq, effect_key_of, empty_indexes, entries_of, last_hash, RecordKind,
  run_created, run_updated, effect_applied, event_appended, checkpoint_created, retention_applied,
  advance_head, apply_event, put_effect, put_run, prune_runs, prune_effect, prune_effects, apply,
  replay,
}

pub record IsTidy (ix : Indexes) : Type 0 where
  pub effects_by_id : IsDistinct ix.effects_by_id
  pub effect_ids : IsDistinct ix.effect_ids
  pub runs : IsDistinct ix.runs
  pub events : IsDistinct ix.events
  pub checkpoints : IsDistinct ix.checkpoints

IsTidy-if : (b : Bool) (x y : Applied) → IsTidy x.1 → IsTidy y.1 → IsTidy (if b then x else y).1
IsTidy-if true x y hx hy = hx
IsTidy-if false x y hx hy = hy

advance_head-IsDistinct :
    (e : EventRecord) (o : Option RunRecord) (runs : Map Uuid RunRecord)
    → IsDistinct runs
    → IsDistinct (advance_head e o runs)
unfolding advance_head
advance_head-IsDistinct e none runs d = d
advance_head-IsDistinct e (some run) runs d = insert-IsDistinct e.run_id _ runs d

module _ (e : EventRecord) (ix : Indexes) (t : IsTidy ix) where
  abbrev events : List EventRecord
  events = entries_of (get e.run_id ix.events)

  abbrev touched : Indexes
  touched = record ix { events = insert e.run_id events ix.events }

  abbrev grown : Indexes
  grown = record touched {
    runs = advance_head e (get e.run_id ix.runs) ix.runs;
    events = insert e.run_id (events ++ e ∷ []) ix.events;
  }

  touched-IsTidy : IsTidy touched
  touched-IsTidy = record {
    effects_by_id = t.effects_by_id;
    effect_ids = t.effect_ids;
    runs = t.runs;
    events = insert-IsDistinct e.run_id events ix.events t.events;
    checkpoints = t.checkpoints;
  }

  grown-IsTidy : IsTidy grown
  grown-IsTidy = record {
    effects_by_id = t.effects_by_id;
    effect_ids = t.effect_ids;
    runs = advance_head-IsDistinct e (get e.run_id ix.runs) ix.runs t.runs;
    events = insert-IsDistinct e.run_id (events ++ e ∷ []) ix.events t.events;
    checkpoints = t.checkpoints;
  }

  apply_event-IsTidy : IsTidy (apply_event e ix).1
  unfolding apply_event
  apply_event-IsTidy =
      IsTidy-if (leb_ℤ e.sequence (pos (length events))) (none, touched)
        (if eq_ℤ e.sequence (pos (length events + 1))
          then (if str_eq e.previous_hash (last_hash events)
              then (none, grown)
              else (some corruption, touched))
          else (some corruption, touched))
        touched-IsTidy
        (IsTidy-if (eq_ℤ e.sequence (pos (length events + 1)))
          (if str_eq e.previous_hash (last_hash events)
            then (none, grown)
            else (some corruption, touched))
          (some corruption, touched)
          (IsTidy-if (str_eq e.previous_hash (last_hash events)) (none, grown)
            (some corruption, touched) grown-IsTidy touched-IsTidy)
          touched-IsTidy)

put_effect-IsTidy :
    (effect : EffectRecord) (ix : Indexes) → IsTidy ix → IsTidy (put_effect effect ix)
unfolding put_effect
put_effect-IsTidy effect ix t = record {
  effects_by_id = insert-IsDistinct effect.id effect ix.effects_by_id t.effects_by_id;
  effect_ids = insert-IsDistinct (effect_key_of effect) effect.id ix.effect_ids t.effect_ids;
  runs = t.runs;
  events = t.events;
  checkpoints = t.checkpoints;
}

prune_runs-IsTidy : (rs : List Uuid) (ix : Indexes) → IsTidy ix → IsTidy (prune_runs rs ix)
unfolding prune_runs
prune_runs-IsTidy [] ix t = t
prune_runs-IsTidy (r ∷ rs) ix t = prune_runs-IsTidy rs _ (record {
  effects_by_id = t.effects_by_id;
  effect_ids = t.effect_ids;
  runs = remove-IsDistinct r ix.runs t.runs;
  events = remove-IsDistinct r ix.events t.events;
  checkpoints = remove-IsDistinct r ix.checkpoints t.checkpoints;
})

prune_effect-IsTidy :
    (id : Uuid) (o : Option EffectRecord) (ix : Indexes) → IsTidy ix → IsTidy (prune_effect id o ix)
unfolding prune_effect
prune_effect-IsTidy id none ix t = t
prune_effect-IsTidy id (some effect) ix t = record {
  effects_by_id = remove-IsDistinct id ix.effects_by_id t.effects_by_id;
  effect_ids = remove-IsDistinct (effect_key_of effect) ix.effect_ids t.effect_ids;
  runs = t.runs;
  events = t.events;
  checkpoints = t.checkpoints;
}

prune_effects-IsTidy : (es : List Uuid) (ix : Indexes) → IsTidy ix → IsTidy (prune_effects es ix)
unfolding prune_effects
prune_effects-IsTidy [] ix t = t
prune_effects-IsTidy (e ∷ es) ix t =
    prune_effects-IsTidy es _ (prune_effect-IsTidy e (get e ix.effects_by_id) ix t)

pub apply-IsTidy : (kind : RecordKind) (ix : Indexes) → IsTidy ix → IsTidy (apply kind ix).1
unfolding apply put_run
apply-IsTidy (run_created run) ix t = record {
  effects_by_id = t.effects_by_id;
  effect_ids = t.effect_ids;
  runs = insert-IsDistinct run.id run ix.runs t.runs;
  events = t.events;
  checkpoints = t.checkpoints;
}
apply-IsTidy (run_updated run) ix t = record {
  effects_by_id = t.effects_by_id;
  effect_ids = t.effect_ids;
  runs = insert-IsDistinct run.id run ix.runs t.runs;
  events = t.events;
  checkpoints = t.checkpoints;
}
apply-IsTidy (effect_applied effect none) ix t = put_effect-IsTidy effect ix t
apply-IsTidy (effect_applied effect (some e)) ix t =
    apply_event-IsTidy e (put_effect effect ix) (put_effect-IsTidy effect ix t)
apply-IsTidy (event_appended e) ix t = apply_event-IsTidy e ix t
apply-IsTidy (checkpoint_created c) ix t = record {
  effects_by_id = t.effects_by_id;
  effect_ids = t.effect_ids;
  runs = t.runs;
  events = t.events;
  checkpoints = insert-IsDistinct c.run_id _ ix.checkpoints t.checkpoints;
}
apply-IsTidy (retention_applied cutoff runs effects) ix t =
    prune_effects-IsTidy effects (prune_runs runs ix) (prune_runs-IsTidy runs ix t)

abbrev answered : Option PersistenceError → Applied → Applied → Applied
answered o x y = elim o [ none ↦ x | some e ↦ (some e, y.1) ]

IsTidy-answer :
    (o : Option PersistenceError) (x y : Applied)
    → IsTidy x.1
    → IsTidy y.1
    → IsTidy (answered o x y).1
IsTidy-answer none x y hx hy = hx
IsTidy-answer (some e) x y hx hy = hy

pub replay-IsTidy : (log : List RecordKind) (ix : Indexes) → IsTidy ix → IsTidy (replay log ix).1
unfolding replay
replay-IsTidy [] ix t = t
replay-IsTidy (kind ∷ log) ix t =
    IsTidy-answer (apply kind ix).0 (replay log (apply kind ix).1) (apply kind ix)
      (replay-IsTidy log (apply kind ix).1 (apply-IsTidy kind ix t)) (apply-IsTidy kind ix t)

pub empty_indexes-IsTidy : IsTidy empty_indexes
empty_indexes-IsTidy = record {
  effects_by_id = empty;
  effect_ids = empty;
  runs = empty;
  events = empty;
  checkpoints = empty;
}
