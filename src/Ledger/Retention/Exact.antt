-- ===== src/Ledger/Retention/Exact.antt =====
-- What a retention pass removes, and what it keeps.
use calod.Prelude.{
  ◌≡◌, refl, ◌∙◌, ap, sym, Bool, true, false, ◌&&◌, ◌||◌, Option, none, some, List, [], ◌∷◌, map,
  any, keep, nat_eq, arith, if◌then◌else◌,
}
use calod.Prelude.Int.{ℤ, leb_ℤ}
use calod.Prelude.Map.{get, values}
use calod.Ledger.Json.{Platform}
use calod.Ledger.Model.{
  Uuid, EffectRecord, RetentionPolicy, RetentionReport, Result, ok, err, is_retention_terminal,
}
use calod.Ledger.Indexes.{Indexes, retention_applied, prune_runs, prune_effects, apply}
use calod.Ledger.Indexes.Sound.{IsSound}
use calod.Ledger.Indexes.Tidy.{IsTidy}
use calod.Ledger.State.{Env, Ledger, WalPosition, acknowledged, persist}
use calod.Ledger.State.Acknowledged.{persist-acknowledged}
use calod.Ledger.Retention.{
  cutoff_of, run_is_old, is_one_of, effect_is_old, old_runs, old_effects, no_ids, finish_retention,
  apply_retention,
}
use calod.Ledger.Retention.Ids.{
  listed, passes, unless, listed-sort_ids, listed-keep, get-prune_effects, effects-prune_runs,
  runs-prune_effects, get-prune_runs,
}
use calod.Ledger.Consistency.Persist.{IsConsistent, IsConsistent-IsTidy}

-- Of a run that the pass removes.
abbrev pub of_old_run : ℤ → Indexes → Option Uuid → Bool
of_old_run cutoff ix none = false
of_old_run cutoff ix (some r) = passes (run_is_old cutoff) (get r ix.runs)

-- Final and old, or of a run that the pass removes.
abbrev pub is_prunable : ℤ → Indexes → EffectRecord → Bool
is_prunable cutoff ix e =
    (is_retention_terminal e.state && leb_ℤ e.updated_at_ms cutoff) || of_old_run cutoff ix e.run_id

-- The effects and the runs after a pass with a cutoff.
pub record Prunes (cutoff : ℤ) (before after : Indexes) : Type 0 where
  pub effects :
      (id : Uuid)
      → get id after.effects_by_id
        ≡ unless (is_prunable cutoff before) (get id before.effects_by_id)
  pub runs : (r : Uuid) → get r after.runs ≡ unless (run_is_old cutoff) (get r before.runs)

unless-passes :
    {A : Type 0} (test : A → Bool) (o : Option A)
    → (if passes test o then none else o) ≡ unless test o
unless-passes test none = refl
unless-passes test (some a) = refl

passes-same :
    {A : Type 0} (f g : A → Bool) (o : Option A) → ((a : A) → f a ≡ g a) → passes f o ≡ passes g o
passes-same f g none same = refl
passes-same f g (some a) same = same a

module _ (p : Platform) (cutoff : ℤ) (ix : Indexes) (sound : IsSound p ix) (tidy : IsTidy ix) where
  listed-old_runs :
      (r : Uuid) → listed (old_runs cutoff ix) r ≡ passes (run_is_old cutoff) (get r ix.runs)
  unfolding old_runs
  listed-old_runs r =
      listed-sort_ids (map (λ r. r.id) (keep (run_is_old cutoff) (values ix.runs))) r
      ∙ listed-keep (λ r. r.id) (run_is_old cutoff) ix.runs r tidy.runs sound.run_ids

  same_old_run : (o : Option Uuid) → is_one_of (old_runs cutoff ix) o ≡ of_old_run cutoff ix o
  unfolding is_one_of
  same_old_run none = refl
  same_old_run (some r) = listed-old_runs r

  same_test :
      (e : EffectRecord) → effect_is_old cutoff (old_runs cutoff ix) e ≡ is_prunable cutoff ix e
  unfolding effect_is_old
  same_test e =
      ap (λ b. (is_retention_terminal e.state && leb_ℤ e.updated_at_ms cutoff) || b)
        (same_old_run e.run_id)

  listed-old_effects :
      (id : Uuid)
      → listed (old_effects cutoff (old_runs cutoff ix) ix) id
        ≡ passes (is_prunable cutoff ix) (get id ix.effects_by_id)
  unfolding old_effects
  listed-old_effects id =
      listed-sort_ids
        (map (λ e. e.id)
          (keep (effect_is_old cutoff (old_runs cutoff ix)) (values ix.effects_by_id)))
        id
      ∙ (listed-keep (λ e. e.id) (effect_is_old cutoff (old_runs cutoff ix)) ix.effects_by_id id
            tidy.effects_by_id sound.effect_ids_agree
          ∙ passes-same _ _ (get id ix.effects_by_id) same_test)

  -- Pruning what the pass lists.
  pruned-Prunes : Prunes cutoff ix (
      prune_effects
        (old_effects cutoff (old_runs cutoff ix) ix)
        (prune_runs (old_runs cutoff ix) ix))
  pruned-Prunes = record {
    effects = λ id.
        get-prune_effects (old_effects cutoff (old_runs cutoff ix) ix) id
          (prune_runs (old_runs cutoff ix) ix)
        ∙ rw (listed-old_effects id, effects-prune_runs (old_runs cutoff ix) ix)
            (unless-passes (is_prunable cutoff ix) (get id ix.effects_by_id));
    runs = λ r.
        rw
          (runs-prune_effects (old_effects cutoff (old_runs cutoff ix) ix)
            (prune_runs (old_runs cutoff ix) ix))
          (get-prune_runs (old_runs cutoff ix) r ix
            ∙ rw (listed-old_runs r) (unless-passes (run_is_old cutoff) (get r ix.runs)));
  }

  -- With nothing to prune, the pass changes nothing.
  idle-Prunes :
      old_runs cutoff ix ≡ []
      → old_effects cutoff (old_runs cutoff ix) ix ≡ []
      → Prunes cutoff ix ix
  unfolding any
  idle-Prunes no_runs no_effects = record {
    effects = λ id.
        ap (λ b. if b then none else get id ix.effects_by_id)
          (ap (λ ids. listed ids id) (sym no_effects) ∙ listed-old_effects id)
        ∙ unless-passes (is_prunable cutoff ix) (get id ix.effects_by_id);
    runs = λ r.
        ap (λ b. if b then none else get r ix.runs)
          (ap (λ ids. listed ids r) (sym no_runs) ∙ listed-old_runs r)
        ∙ unless-passes (run_is_old cutoff) (get r ix.runs);
  }

no_ids-nil : (ids : List Uuid) → no_ids ids ≡ true → ids ≡ []
unfolding no_ids
no_ids-nil [] h = refl
no_ids-nil (a ∷ as') h = absurd (cc)

both : (a b : Bool) → (a && b) ≡ true → (a ≡ true) × (b ≡ true)
both a b h = ground arith

finish_retention-indexes :
    (report : RetentionReport) (r : Result (Unit {0}) × Ledger)
    → (finish_retention report r).1.indexes ≡ r.1.indexes
unfolding finish_retention
finish_retention-indexes report (err e, l) = refl
finish_retention-indexes report (ok u, l) = refl

module _ (p : Platform) (env : Env) (policy : RetentionPolicy) (l : Ledger)
    (sound : IsSound p l.indexes) (tidy : IsTidy l.indexes) (position : WalPosition)
    (answer : env.append ≡ acknowledged position) where
  abbrev cutoff : ℤ
  cutoff = cutoff_of env policy

  abbrev run_ids : List Uuid
  run_ids = old_runs cutoff l.indexes

  abbrev effect_ids : List Uuid
  effect_ids = old_effects cutoff run_ids l.indexes

  written-Prunes :
      (report : RetentionReport)
      → Prunes cutoff l.indexes
          (finish_retention report
            (persist env (retention_applied cutoff run_ids effect_ids) l)).1.indexes
  unfolding apply
  written-Prunes report =
      let (done, same) =
        persist-acknowledged env (retention_applied cutoff run_ids effect_ids) l position answer
          refl in
      rw
        (
          finish_retention-indexes report
              (persist env (retention_applied cutoff run_ids effect_ids) l),
          same,
        )
        (pruned-Prunes p cutoff l.indexes sound tidy)

  pass-Prunes :
      (b : Bool) (report : RetentionReport)
      → (no_ids run_ids && no_ids effect_ids) ≡ b
      → Prunes cutoff l.indexes
          (if b
            then (ok report, l)
            else finish_retention report
                (persist env (retention_applied cutoff run_ids effect_ids) l)).1.indexes
  pass-Prunes true report h =
      let (no_runs, no_effects) = both (no_ids run_ids) (no_ids effect_ids) h in
      idle-Prunes p cutoff l.indexes sound tidy (no_ids-nil run_ids no_runs)
        (no_ids-nil effect_ids no_effects)
  pass-Prunes false report h = written-Prunes report

  apply_retention-Prunes : Prunes cutoff l.indexes (apply_retention env policy l).1.indexes
  unfolding apply_retention
  apply_retention-Prunes = pass-Prunes (no_ids run_ids && no_ids effect_ids) _ refl

-- A retention pass over a consistent ledger whose record is acknowledged removes exactly the runs
-- that are in a terminal status and the effects that are in a final state, each if it was last
-- updated at or before the cutoff, and every effect of a run that it removes; it changes no other
-- effect or run.
pub retention_removes_exactly :
    (p : Platform) (env : Env) (policy : RetentionPolicy) (l : Ledger) (position : WalPosition)
    → IsConsistent p l
    → env.append ≡ acknowledged position
    → Prunes (cutoff_of env policy) l.indexes (apply_retention env policy l).1.indexes
retention_removes_exactly p env policy l position c answer =
    apply_retention-Prunes p env policy l c.sound (IsConsistent-IsTidy p l c) position answer
