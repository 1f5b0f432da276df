-- ===== src/Ledger/Indexes/Puts.antt =====
-- About storing a run, an effect or a checkpoint in the indexes.
use calod.Prelude.{◌≡◌, some, inl, inr, false, arith, nat_beq_iff, nat_eq, Bool-cases}
use calod.Prelude.Map.{get, insert, get-insert}
use calod.Ledger.Json.{Platform}
use calod.Ledger.Model.{Uuid, EffectRecord, RunRecord}
use calod.Ledger.Indexes.{
  Indexes, EffectKey, key_beq, key_beq_iff, key_eq, effect_key_of, put_run, put_effect,
}
use calod.Ledger.Indexes.Sound.{IsSound, HeadIs, Named, FitsEffect, timeline}

module _ (p : Platform) (ix : Indexes) (sound : IsSound p ix) where
  pub put_run-IsSound :
      (run : RunRecord) → HeadIs run (timeline run.id ix) → IsSound p (put_run run ix)
  unfolding put_run
  put_run-IsSound run h = record {
    heads = λ r other e.
        ground (arith, get-insert run.id r run ix.runs, nat_beq_iff run.id r, sound.heads r other);
    run_ids = λ r other e.
        ground
          (arith, get-insert run.id r run ix.runs, nat_beq_iff run.id r, sound.run_ids r other);
    orphans = λ r e.
        ground (arith, get-insert run.id r run ix.runs, nat_beq_iff run.id r, sound.orphans r);
    chains = sound.chains;
    effect_ids_agree = sound.effect_ids_agree;
    keyed = sound.keyed;
    named = sound.named;
  }

  put_effect_keyed :
      (e : EffectRecord) (fits : FitsEffect ix e) (id : Uuid) (other : EffectRecord)
      → get id (insert e.id e ix.effects_by_id) ≡ some other
      → get (effect_key_of other) (insert (effect_key_of e) e.id ix.effect_ids) ≡ some id
  put_effect_keyed e (inl (fresh, unnamed)) id other h = ground (
    arith,
    get-insert e.id id e ix.effects_by_id,
    get-insert (effect_key_of e) (effect_key_of other) e.id ix.effect_ids,
    nat_beq_iff e.id id,
    key_beq_iff (effect_key_of e) (effect_key_of other),
    sound.keyed id other,
  )
  put_effect_keyed e (inr (old, there, same)) id other h = ground (
    arith,
    get-insert e.id id e ix.effects_by_id,
    get-insert (effect_key_of e) (effect_key_of other) e.id ix.effect_ids,
    nat_beq_iff e.id id,
    key_beq_iff (effect_key_of e) (effect_key_of other),
    sound.keyed id other,
    sound.keyed e.id old there,
  )

  -- A key that `effect_ids` had keeps its effect, unless it is the key that is stored.
  Named-other :
      (e : EffectRecord) (fits : FitsEffect ix e) (key : EffectKey) (id : Uuid)
      → key_beq (effect_key_of e) key ≡ false
      → Named key id ix
      → (x : EffectRecord) × (get id (insert e.id e ix.effects_by_id) ≡ some x)
        × (effect_key_of x ≡ key)
  Named-other e (inl (fresh, unnamed)) key id ne (x, there, keyed) =
      (x, ground (arith, get-insert e.id id e ix.effects_by_id, nat_beq_iff e.id id), keyed)
  Named-other e (inr (old, was, same)) key id ne (x, there, keyed) = (
    x,
    ground (
      arith,
      get-insert e.id id e ix.effects_by_id,
      nat_beq_iff e.id id,
      key_beq_iff (effect_key_of e) key,
    ),
    keyed,
  )

  put_effect_named :
      (e : EffectRecord) (fits : FitsEffect ix e) (key : EffectKey) (id : Uuid)
      → get key (insert (effect_key_of e) e.id ix.effect_ids) ≡ some id
      → (x : EffectRecord) × (get id (insert e.id e ix.effects_by_id) ≡ some x)
        × (effect_key_of x ≡ key)
  put_effect_named e fits key id h = elim (Bool-cases (key_beq (effect_key_of e) key)) [
    | inl eq ↦ (
      e,
      ground (
        arith,
        get-insert (effect_key_of e) key e.id ix.effect_ids,
        get-insert e.id id e ix.effects_by_id,
        nat_beq_iff e.id id,
      ),
      (key_beq_iff (effect_key_of e) key).0 eq,
    )
    | inr ne ↦
        Named-other e fits key id ne
          (sound.named key id (ground (arith, get-insert (effect_key_of e) key e.id ix.effect_ids)))
  ]

  pub put_effect-IsSound : (e : EffectRecord) → FitsEffect ix e → IsSound p (put_effect e ix)
  unfolding put_effect
  put_effect-IsSound e fits = record {
    heads = sound.heads;
    run_ids = sound.run_ids;
    orphans = sound.orphans;
    chains = sound.chains;
    effect_ids_agree = λ id other h. ground (
      arith,
      get-insert e.id id e ix.effects_by_id,
      nat_beq_iff e.id id,
      sound.effect_ids_agree id other,
    );
    keyed = put_effect_keyed e fits;
    named = put_effect_named e fits;
  }
