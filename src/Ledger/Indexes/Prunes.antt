-- ===== src/Ledger/Indexes/Prunes.antt =====
-- About retention on the indexes.
use calod.Prelude.{
  ◌≡◌, refl, true, false, Option, none, some, List, [], ◌∷◌, arith, nat_beq, nat_beq_iff, nat_eq,
  Bool-cases, inl, inr, map, if◌then◌else◌,
}
use calod.Prelude.Map.{get, remove, get-remove}
use calod.Ledger.Json.{Platform}
use calod.Ledger.Model.{Uuid, EffectRecord, RunRecord, event_view}
use calod.Ledger.Chain.{verify_event_chain}
use calod.Ledger.Indexes.{
  Indexes, EffectKey, key_beq, key_beq_iff, key_eq, effect_key_of, entries_of, prune_runs,
  prune_effect, prune_effects,
}
use calod.Ledger.Indexes.Sound.{IsSound, HeadIs, Named, timeline}

abbrev without_run : Uuid → Indexes → Indexes
without_run r ix = record ix {
  runs = remove r ix.runs;
  events = remove r ix.events;
  checkpoints = remove r ix.checkpoints;
}

timeline-without_run :
    (r q : Uuid) (ix : Indexes)
    → timeline q (without_run r ix) ≡ (if nat_beq r q then [] else timeline q ix)
unfolding entries_of
timeline-without_run r q ix = ground (arith, get-remove r q ix.events)

module _ (p : Platform) (ix : Indexes) (sound : IsSound p ix) where
  heads_without :
      (r q : Uuid) (run : RunRecord)
      → get q (remove r ix.runs) ≡ some run
      → HeadIs run (if nat_beq r q then [] else timeline q ix)
  heads_without r q run h = ground (arith, get-remove r q ix.runs, sound.heads q run)

  chains_without :
      (r q : Uuid)
      → verify_event_chain p (map event_view (if nat_beq r q then [] else timeline q ix)) ≡ true
  unfolding verify_event_chain
  chains_without r q = elim (Bool-cases (nat_beq r q)) [
    | inl eq ↦ rw eq
    | inr ne ↦ rw ne (sound.chains q)
  ]

  without_run-IsSound : (r : Uuid) → IsSound p (without_run r ix)
  without_run-IsSound r = record {
    heads = λ q run h. rw (timeline-without_run r q ix) (heads_without r q run h);
    run_ids = λ q run h. ground (arith, get-remove r q ix.runs, sound.run_ids q run);
    orphans = λ q h.
        rw (timeline-without_run r q ix) (ground (arith, get-remove r q ix.runs, sound.orphans q));
    chains = λ q. rw (timeline-without_run r q ix) (chains_without r q);
    effect_ids_agree = sound.effect_ids_agree;
    keyed = sound.keyed;
    named = sound.named;
  }

  module _ (id : Uuid) (effect : EffectRecord) (there : get id ix.effects_by_id ≡ some effect) where
    keyed_without :
        (q : Uuid) (e : EffectRecord)
        → get q (remove id ix.effects_by_id) ≡ some e
        → get (effect_key_of e) (remove (effect_key_of effect) ix.effect_ids) ≡ some q
    keyed_without q e h = ground (
      arith,
      get-remove id q ix.effects_by_id,
      get-remove (effect_key_of effect) (effect_key_of e) ix.effect_ids,
      nat_beq_iff id q,
      key_beq_iff (effect_key_of effect) (effect_key_of e),
      sound.keyed q e,
      sound.keyed id effect there,
    )

    still-Named :
        (key : EffectKey) (q : Uuid)
        → key_beq (effect_key_of effect) key ≡ false
        → Named key q ix
        → (x : EffectRecord) × (get q (remove id ix.effects_by_id) ≡ some x)
          × (effect_key_of x ≡ key)
    still-Named key q ne (x, here, keyed) = (
      x,
      ground (
        arith,
        get-remove id q ix.effects_by_id,
        nat_beq_iff id q,
        key_beq_iff (effect_key_of effect) key,
      ),
      keyed,
    )

    named_without :
        (key : EffectKey) (q : Uuid)
        → get key (remove (effect_key_of effect) ix.effect_ids) ≡ some q
        → (x : EffectRecord) × (get q (remove id ix.effects_by_id) ≡ some x)
          × (effect_key_of x ≡ key)
    named_without key q h = elim (Bool-cases (key_beq (effect_key_of effect) key)) [
      | inl eq ↦ absurd (ground (arith, get-remove (effect_key_of effect) key ix.effect_ids))
      | inr ne ↦
          still-Named key q ne (
            sound.named key q (ground (arith, get-remove (effect_key_of effect) key ix.effect_ids)))
    ]

    without_effect-IsSound : IsSound p (prune_effect id (some effect) ix)
    unfolding prune_effect
    without_effect-IsSound = record {
      heads = sound.heads;
      run_ids = sound.run_ids;
      orphans = sound.orphans;
      chains = sound.chains;
      effect_ids_agree =
          λ q e h. ground (arith, get-remove id q ix.effects_by_id, sound.effect_ids_agree q e);
      keyed = keyed_without;
      named = named_without;
    }

  prune_effect-IsSound :
      (id : Uuid) (o : Option EffectRecord)
      → get id ix.effects_by_id ≡ o
      → IsSound p (prune_effect id o ix)
  unfolding prune_effect
  prune_effect-IsSound id none h = sound
  prune_effect-IsSound id (some effect) h = without_effect-IsSound id effect h

pub prune_runs-IsSound :
    (p : Platform) (ix : Indexes) (rs : List Uuid) → IsSound p ix → IsSound p (prune_runs rs ix)
unfolding prune_runs
prune_runs-IsSound p ix [] sound = sound
prune_runs-IsSound p ix (r ∷ rs) sound =
    prune_runs-IsSound p (without_run r ix) rs (without_run-IsSound p ix sound r)

pub prune_effects-IsSound :
    (p : Platform) (ix : Indexes) (es : List Uuid) → IsSound p ix → IsSound p (prune_effects es ix)
unfolding prune_effects
prune_effects-IsSound p ix [] sound = sound
prune_effects-IsSound p ix (e ∷ es) sound =
    prune_effects-IsSound p (prune_effect e (get e ix.effects_by_id) ix) es
      (prune_effect-IsSound p ix sound e (get e ix.effects_by_id) refl)
