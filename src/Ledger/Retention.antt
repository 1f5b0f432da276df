-- ===== src/Ledger/Retention.antt =====
-- Retention: calod/crates/calod-ledger/src/ledger.rs.
pub mod Ids
pub mod Exact
pub mod Unknown
use calod.Prelude.{
  ℕ, ◌+◌, Bool, Option, none, some, List, [], ◌∷◌, true, false, ◌&&◌, ◌||◌, if◌then◌else◌, any,
  keep, map, length, nat_beq, nat_eq, leb,
}
use calod.Prelude.Int.{ℤ, pos, leb_ℤ, ltb_ℤ, saturating_sub_i64}
use calod.Prelude.Map.{get, values}
use calod.Ledger.Model.{
  Uuid, RunRecord, EffectRecord, RetentionPolicy, RetentionReport, Result, ok, err, is_terminal,
  is_retention_terminal,
}
use calod.Ledger.Indexes.{Indexes, retention_applied, entries_of}
use calod.Ledger.State.{Env, Ledger, bump, persist}

-- `sort` of identifiers.
unfoldable pub insert_id : Uuid → List Uuid → List Uuid
insert_id a [] = a ∷ []
insert_id a (b ∷ bs) = if leb a b then a ∷ b ∷ bs else b ∷ insert_id a bs

unfoldable pub sort_ids : List Uuid → List Uuid
unfolding insert_id
sort_ids [] = []
sort_ids (a ∷ as') = insert_id a (sort_ids as')

-- `max_age_ms.max(0)`
unfoldable pub max0 : ℤ → ℤ
max0 a = if ltb_ℤ a (pos 0) then pos 0 else a

unfoldable pub cutoff_of : Env → RetentionPolicy → ℤ
unfolding max0
cutoff_of env policy = saturating_sub_i64 env.now (max0 policy.max_age_ms)

unfoldable pub run_is_old : ℤ → RunRecord → Bool
run_is_old cutoff run = is_terminal run.status && leb_ℤ run.updated_at_ms cutoff

unfoldable pub is_one_of : List Uuid → Option Uuid → Bool
is_one_of ids none = false
is_one_of ids (some id) = any (λ r. nat_beq r id) ids

unfoldable pub effect_is_old : ℤ → List Uuid → EffectRecord → Bool
unfolding is_one_of
effect_is_old cutoff pruned_runs effect =
    (is_retention_terminal effect.state && leb_ℤ effect.updated_at_ms cutoff)
    || is_one_of pruned_runs effect.run_id

unfoldable pub old_runs : ℤ → Indexes → List Uuid
unfolding sort_ids run_is_old
old_runs cutoff ix = sort_ids (map (λ r. r.id) (keep (run_is_old cutoff) (values ix.runs)))

unfoldable pub old_effects : ℤ → List Uuid → Indexes → List Uuid
unfolding sort_ids effect_is_old
old_effects cutoff pruned_runs ix =
    sort_ids (map (λ e. e.id) (keep (effect_is_old cutoff pruned_runs) (values ix.effects_by_id)))

unfoldable pub count_events : List Uuid → Indexes → ℕ
unfolding entries_of
count_events [] ix = 0
count_events (id ∷ ids) ix = length (entries_of (get id ix.events)) + count_events ids ix

unfoldable pub no_ids : List Uuid → Bool
no_ids [] = true
no_ids (_ ∷ _) = false

unfoldable pub finish_retention :
    RetentionReport → Result (Unit {0}) × Ledger → Result RetentionReport × Ledger
finish_retention report (err e, l) = (err e, l)
finish_retention report (ok _, l) = (
  ok report,
  record l {
    counters = record l.counters {
      retention_runs_removed = bump l.counters.retention_runs_removed report.runs_removed;
      retention_effects_removed = bump l.counters.retention_effects_removed report.effects_removed;
    };
  },
)

unfoldable pub apply_retention : Env → RetentionPolicy → Ledger → Result RetentionReport × Ledger
unfolding cutoff_of old_runs old_effects count_events no_ids finish_retention
apply_retention env policy l =
    let cutoff = cutoff_of env policy in
    let run_ids = old_runs cutoff l.indexes in
    let effect_ids = old_effects cutoff run_ids l.indexes in
    let report : RetentionReport = record {
      runs_removed = length run_ids;
      effects_removed = length effect_ids;
      events_removed = count_events run_ids l.indexes;
      cutoff_ms = cutoff;
    } in
    if no_ids run_ids && no_ids effect_ids
    then (ok report, l)
    else finish_retention report (persist env (retention_applied cutoff run_ids effect_ids) l)
