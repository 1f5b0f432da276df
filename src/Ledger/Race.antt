-- ===== src/Ledger/Race.antt =====
-- Two calls on one run that overlap: calod/crates/calod-ledger/src/ledger.rs. `build_effect_event`
-- holds the run's lock only until it returns, so a second call can build its event from the same
-- state before the first one is persisted.
use calod.Prelude.{
  ℕ, ◌≡◌, refl, ap, ◌∙◌, none, some, [], ◌∷◌, ◌++◌, Str, arith, nat_eq, nat_beq_iff, length,
  length-append,
}
use calod.Prelude.Int.{pos}
use calod.Prelude.Map.{get, get-insert}
use calod.Ledger.Json.{Platform, Value}
use calod.Ledger.Model.{Uuid, Scope, EffectRecord, EventRecord, Result, ok}
use calod.Ledger.Indexes.{Indexes, entries_of, apply_event, apply, put_effect, effect_applied}
use calod.Ledger.Indexes.Sound.{FitsEvent, timeline}
use calod.Ledger.Indexes.Events.{appended, apply_event-appended}
use calod.Ledger.State.{Env, Ledger, WalPosition, acknowledged, persist, build_effect_event}
use calod.Ledger.State.Acknowledged.{persist-acknowledged}
use calod.Ledger.Acquire.{persist_effect}
use calod.Ledger.Consistency.Persist.{IsConsistent, HasRoom}
use calod.Ledger.Consistency.Events.{effect_event-FitsEvent, effect_event-run_id}

-- What applying `effect` with an event that the timeline already covers does.
record Dropped (effect : EffectRecord) (e : EventRecord) (ix : Indexes) : Type 0 where
  no_error : (apply (effect_applied effect (some e)) ix).0 ≡ none
  same_timeline :
      (r : Uuid) → timeline r (apply (effect_applied effect (some e)) ix).1 ≡ timeline r ix
  stored : get effect.id (apply (effect_applied effect (some e)) ix).1.effects_by_id ≡ some effect

covered-Dropped :
    (effect : EffectRecord) (e : EventRecord) (ix : Indexes) (n : ℕ)
    → length (timeline e.run_id ix) ≡ n
    → e.sequence ≡ pos n
    → Dropped effect e ix
unfolding apply apply_event put_effect entries_of
covered-Dropped effect e ix n long at = record {
  no_error = rw (at, long) (ground arith);
  same_timeline = λ r.
      rw (at, long)
        (ground
          (arith, get-insert e.run_id r (timeline e.run_id ix) ix.events, nat_beq_iff e.run_id r));
  stored =
      rw (at, long)
        (ground (
          arith,
          get-insert effect.id effect.id effect ix.effects_by_id,
          nat_beq_iff effect.id effect.id,
        ));
}

module _ (p : Platform) (ix : Indexes) (first second : EventRecord) (fits : FitsEvent p ix first)
    (also_fits : FitsEvent p ix second) (same_run : second.run_id ≡ first.run_id) where
  first_applied :
      (f : EffectRecord)
      → ((apply (effect_applied f (some first)) ix).0 ≡ none)
        × (timeline first.run_id (apply (effect_applied f (some first)) ix).1
            ≡ timeline first.run_id ix ++ first ∷ [])
  unfolding apply put_effect appended entries_of
  first_applied f =
      let put : FitsEvent p (put_effect f ix) first = record {
        run = fits.run;
        there = fits.there;
        extends = fits.extends;
      } in
      rw (apply_event-appended p (put_effect f ix) first put) (
        refl,
        ground (
          arith,
          get-insert first.run_id first.run_id (timeline first.run_id ix ++ first ∷ []) ix.events,
          nat_beq_iff first.run_id first.run_id,
        ),
      )

  second_sequence :
      (after : Indexes)
      → timeline first.run_id after ≡ timeline first.run_id ix ++ first ∷ []
      → second.sequence ≡ pos (length (timeline second.run_id after))
  second_sequence after grown =
      also_fits.extends.sequence
      ∙ ap pos
          (rw (same_run, grown) (rw (length-append (timeline first.run_id ix) (first ∷ [])) refl))

-- The second call answers `ok` and stores its effect, and its event is nowhere.
pub record SecondLost (before : Ledger) (g : EffectRecord) (first : EventRecord)
    (r : Result (Unit {0}) × Ledger) : Type 0 where
  pub accepted : r.0 ≡ ok tt
  pub only_first :
      timeline first.run_id r.1.indexes ≡ timeline first.run_id before.indexes ++ first ∷ []
  pub stored : get g.id r.1.indexes.effects_by_id ≡ some g

module _ (p : Platform) (env_a env_b : Env) (f g : EffectRecord) (first second : EventRecord)
    (position_a position_b : WalPosition) (l : Ledger) where
  second_lost :
      FitsEvent p l.indexes first
      → FitsEvent p l.indexes second
      → second.run_id ≡ first.run_id
      → env_a.append ≡ acknowledged position_a
      → env_b.append ≡ acknowledged position_b
      → SecondLost l g first
          (persist_effect env_b g (ok (some second)) (persist_effect env_a f (ok (some first)) l).1)
  unfolding persist_effect
  second_lost fits also_fits same_run answer_a answer_b =
      let (fine, grown) = first_applied p l.indexes first second fits also_fits same_run f in
      let l1 = (persist env_a (effect_applied f (some first)) l).1 in
      let (done, same) =
        persist-acknowledged env_a (effect_applied f (some first)) l position_a answer_a fine in
      let grown1 : timeline first.run_id l1.indexes
          ≡ timeline first.run_id l.indexes ++ first ∷ [] =
        ap (timeline first.run_id) same ∙ grown in
      let dropped =
        covered-Dropped g second l1.indexes (length (timeline second.run_id l1.indexes)) refl
          (second_sequence p l.indexes first second fits also_fits same_run l1.indexes grown1) in
      let (accepted, last) =
        persist-acknowledged env_b (effect_applied g (some second)) l1 position_b answer_b
          dropped.no_error in
      record {
        accepted = accepted;
        only_first = rw last (dropped.same_timeline first.run_id ∙ grown1);
        stored = rw last dropped.stored;
      }

-- Two effects of one run whose events were both built from the same consistent ledger, and which
-- are then persisted one after the other, with both records acknowledged: the second call is
-- accepted and its effect is stored, but the run's timeline has only the first event.
pub second_event_lost :
    (p : Platform) (env_a env_b : Env) (scope_a scope_b : Scope) (f g : EffectRecord)
    (type_a type_b : Str) (detail_a detail_b : Value) (first second : EventRecord)
    (position_a position_b : WalPosition) (l : Ledger)
    → IsConsistent p l
    → HasRoom l
    → build_effect_event p env_a scope_a f type_a detail_a l ≡ ok (some first)
    → build_effect_event p env_b scope_b g type_b detail_b l ≡ ok (some second)
    → g.run_id ≡ f.run_id
    → env_a.append ≡ acknowledged position_a
    → env_b.append ≡ acknowledged position_b
    → SecondLost l g first
        (persist_effect env_b g (ok (some second)) (persist_effect env_a f (ok (some first)) l).1)
second_event_lost p env_a env_b scope_a scope_b f g type_a type_b detail_a detail_b first second
      position_a position_b l c space built_a built_b same_run answer_a answer_b =
    let on_a =
      effect_event-run_id p env_a scope_a l c space f type_a detail_a first f.run_id refl built_a in
    let on_b =
      effect_event-run_id p env_b scope_b l c space g type_b detail_b second g.run_id refl
        built_b in
    let same : second.run_id ≡ first.run_id = cc (on_a, on_b, same_run) in
    second_lost p env_a env_b f g first second position_a position_b l
      (effect_event-FitsEvent p env_a scope_a l c space f type_a detail_a first f.run_id refl
        built_a)
      (effect_event-FitsEvent p env_b scope_b l c space g type_b detail_b second g.run_id refl
        built_b)
      same answer_a answer_b
