-- ===== src/Ledger/Indexes/Events.antt =====
-- About appending an event to the indexes.
use calod.Prelude.{
  ◌≡◌, refl, sym, true, none, some, List, [], ◌∷◌, ◌++◌, arith, nat_beq, nat_beq_iff, nat_eq,
  Bool-cases, inl, inr, length-append, map, str_eq_refl, if◌then◌else◌,
}
use calod.Prelude.Map.{get, insert, get-insert}
use calod.Ledger.Json.{Platform}
use calod.Ledger.Model.{Uuid, RunRecord, EventRecord, event_view}
use calod.Ledger.Chain.{verify_event_chain}
use calod.Ledger.Chain.Extend.{verify_event_chain-append}
use calod.Ledger.Indexes.{Indexes, entries_of, last_hash, apply_event}
use calod.Ledger.Indexes.Sound.{IsSound, HeadIs, FitsEvent, timeline}

pub last_hash-append : (es : List EventRecord) (e : EventRecord) → last_hash (es ++ e ∷ []) ≡ e.hash
unfolding last_hash
last_hash-append [] e = refl
last_hash-append (f ∷ []) e = refl
last_hash-append (f ∷ g ∷ es) e = last_hash-append (g ∷ es) e

-- The run after its event.
unfoldable pub run_after : EventRecord → RunRecord → RunRecord
run_after e run = record run { last_event_sequence = e.sequence; head_hash = e.hash }

-- The indexes after an event that fits.
unfoldable pub appended : EventRecord → RunRecord → Indexes → Indexes
unfolding run_after
appended e run ix = record ix {
  runs = insert e.run_id (run_after e run) ix.runs;
  events = insert e.run_id (timeline e.run_id ix ++ e ∷ []) ix.events;
}

pub apply_event-appended :
    (p : Platform) (ix : Indexes) (e : EventRecord) (fits : FitsEvent p ix e)
    → apply_event e ix ≡ (none, appended e fits.run ix)
unfolding apply_event appended
apply_event-appended p ix e fits =
    rw (fits.extends.sequence, fits.extends.previous_hash, fits.there)
      (ground (arith, str_eq_refl (last_hash (timeline e.run_id ix))))

module _ (p : Platform) (ix : Indexes) (sound : IsSound p ix) (e : EventRecord)
    (fits : FitsEvent p ix e) where
  timeline-appended :
      (r : Uuid)
      → timeline r (appended e fits.run ix)
        ≡ (if nat_beq e.run_id r then timeline e.run_id ix ++ e ∷ [] else timeline r ix)
  unfolding appended entries_of
  timeline-appended r =
      ground (arith, get-insert e.run_id r (timeline e.run_id ix ++ e ∷ []) ix.events)

  head_appended : HeadIs (run_after e fits.run) (timeline e.run_id ix ++ e ∷ [])
  unfolding run_after
  head_appended = record {
    last_sequence = rw (fits.extends.sequence, length-append) (ground arith);
    head = sym (last_hash-append (timeline e.run_id ix) e);
  }

  heads_appended :
      (r : Uuid) (run : RunRecord)
      → get r (insert e.run_id (run_after e fits.run) ix.runs) ≡ some run
      → HeadIs run (if nat_beq e.run_id r then timeline e.run_id ix ++ e ∷ [] else timeline r ix)
  heads_appended r run h = ground (
    arith,
    get-insert e.run_id r (run_after e fits.run) ix.runs,
    nat_beq_iff e.run_id r,
    head_appended,
    sound.heads r run,
  )

  chains_appended :
      (r : Uuid)
      → verify_event_chain p (
          map event_view
            (if nat_beq e.run_id r then timeline e.run_id ix ++ e ∷ [] else timeline r ix))
        ≡ true
  chains_appended r = elim (Bool-cases (nat_beq e.run_id r)) [
    | inl eq ↦
        rw eq (
          verify_event_chain-append p (timeline e.run_id ix) e (sound.chains e.run_id) fits.extends)
    | inr ne ↦ rw ne (sound.chains r)
  ]

  pub appended-IsSound : IsSound p (appended e fits.run ix)
  unfolding appended
  appended-IsSound = record {
    heads = λ r run h. rw (timeline-appended r) (heads_appended r run h);
    run_ids = λ r run h. ground (
      arith,
      run_after,
      get-insert e.run_id r (run_after e fits.run) ix.runs,
      nat_beq_iff e.run_id r,
      sound.run_ids r run,
      sound.run_ids e.run_id fits.run fits.there,
    );
    orphans = λ r h. rw (timeline-appended r) (
        ground (
          arith,
          get-insert e.run_id r (run_after e fits.run) ix.runs,
          nat_beq_iff e.run_id r,
          sound.orphans r,
        ));
    chains = λ r. rw (timeline-appended r) (chains_appended r);
    effect_ids_agree = sound.effect_ids_agree;
    keyed = sound.keyed;
    named = sound.named;
  }
