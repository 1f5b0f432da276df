-- ===== src/Ledger/Export/Evidence.antt =====
-- What an export holds.
use calod.Prelude.{
  ◌≡◌, refl, ◌∙◌, Bool, true, ◌&&◌, some, List, [], ◌∷◌, map, keep, all, any, ◌||◌, nat_beq, nat_eq,
  opt_eq, arith,
}
use calod.Prelude.Map.{get, values}
use calod.Ledger.Json.{Platform}
use calod.Ledger.Chain.{verify_event_chain}
use calod.Ledger.Model.{
  Uuid, Scope, Effect, EffectRecord, RunRecord, RunExport, ok, effect_view, event_view, >>=-eq-ok,
}
use calod.Ledger.State.{Ledger, run_in_scope}
use calod.Ledger.Consistency.Persist.{IsConsistent, IsConsistent-IsTidy}
use calod.Ledger.Consistency.Events.{run_in_scope_sound}
use calod.Ledger.Indexes.Sound.{timeline}
use calod.Ledger.Retention.Ids.{listed, passes, listed-keep}
use calod.Ledger.Export.{insert_by, sort_by, effect_leb, of_run, export_run}

module _ {A : Type 0} (before : A → A → Bool) (test : A → Bool) where
  all-insert_by :
      (a : A) (as' : List A) → all test (insert_by before a as') ≡ (test a && all test as')
  unfolding insert_by all
  all-insert_by a [] = refl
  all-insert_by a (b ∷ bs) = ground (arith, all-insert_by a bs)

  all-sort_by : (as' : List A) → all test (sort_by before as') ≡ all test as'
  unfolding sort_by all
  all-sort_by [] = refl
  all-sort_by (a ∷ as') = ground (arith, all-insert_by a (sort_by before as'), all-sort_by as')

  any-insert_by :
      (a : A) (as' : List A) → any test (insert_by before a as') ≡ (test a || any test as')
  unfolding insert_by any
  any-insert_by a [] = refl
  any-insert_by a (b ∷ bs) = ground (arith, any-insert_by a bs)

  any-sort_by : (as' : List A) → any test (sort_by before as') ≡ any test as'
  unfolding sort_by any
  any-sort_by [] = refl
  any-sort_by (a ∷ as') = ground (arith, any-insert_by a (sort_by before as'), any-sort_by as')

-- An effect of a run, as the caller sees it.
abbrev pub view_of_run : Uuid → Effect → Bool
view_of_run r e = opt_eq nat_beq e.run_id (some r)

kept_of_run :
    (r : Uuid) (es : List EffectRecord)
    → all (view_of_run r) (map effect_view (keep (of_run r) es)) ≡ true
unfolding keep all of_run effect_view
kept_of_run r [] = refl
kept_of_run r (e ∷ es) = ground (arith, kept_of_run r es)

listed_views :
    (id : Uuid) (es : List EffectRecord)
    → any (λ v. nat_beq v.id id) (map effect_view es) ≡ listed (map (λ e. e.id) es) id
unfolding any effect_view
listed_views id [] = refl
listed_views id (e ∷ es) = ground (arith, listed_views id es)

-- The evidence of one run.
pub record IsEvidence (p : Platform) (scope : Scope) (r : Uuid) (l : Ledger) (x : RunExport)
    : Type 0 where
  pub run : RunRecord
  pub there : get r l.indexes.runs ≡ some run
  pub tenant : run.tenant_id ≡ scope.tenant_id
  pub project : run.project_id ≡ scope.project_id
  pub chain : verify_event_chain p x.events ≡ true
  pub own : all (view_of_run r) x.effects ≡ true
  pub complete :
      (id : Uuid)
      → any (λ v. nat_beq v.id id) x.effects ≡ passes (of_run r) (get id l.indexes.effects_by_id)

module _ (p : Platform) (scope : Scope) (r : Uuid) (l : Ledger) (c : IsConsistent p l) where
  abbrev own_effects : List EffectRecord
  own_effects = keep (of_run r) (values l.indexes.effects_by_id)

  own_effects-IsEvidence :
      (run : RunRecord) (x : RunExport)
      → run_in_scope scope r l ≡ ok run
      → x.effects ≡ sort_by effect_leb (map effect_view own_effects)
      → x.events ≡ map event_view (timeline r l.indexes)
      → IsEvidence p scope r l x
  own_effects-IsEvidence run x found effects events =
      let in_scope = run_in_scope_sound scope r l run found in
      record {
        run = run;
        there = in_scope.there;
        tenant = in_scope.tenant;
        project = in_scope.project;
        chain = rw events (c.sound.chains r);
        own = rw effects (
            all-sort_by effect_leb (view_of_run r) (map effect_view own_effects)
            ∙ kept_of_run r (values l.indexes.effects_by_id));
        complete = λ id. rw effects (
            any-sort_by effect_leb (λ v. nat_beq v.id id) (map effect_view own_effects)
            ∙ (listed_views id own_effects
                ∙ listed-keep (λ e. e.id) (of_run r) l.indexes.effects_by_id id
                    (IsConsistent-IsTidy p l c).effects_by_id c.sound.effect_ids_agree));
      }

  -- An export of a consistent ledger that is not refused is of a run of the caller's tenant and
  -- project; the hash chain of its events verifies; all its effects are effects of the run; and an
  -- identifier is among them exactly if it is that of an effect of the run.
  pub export_run-IsEvidence :
      (x : RunExport) → export_run scope r l ≡ ok x → IsEvidence p scope r l x
  unfolding export_run
  export_run-IsEvidence x h =
      let (run, found, built) = >>=-eq-ok (run_in_scope scope r l) _ {b = x} h in
      own_effects-IsEvidence run x found (cc built) (cc built)
