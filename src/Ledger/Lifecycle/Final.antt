-- ===== src/Ledger/Lifecycle/Final.antt =====
-- An effect in a final state: what a log record must spare so that it stays as it is.
pub mod Keeps
pub mod Steps
pub mod Replays
use calod.Prelude.{
  ◌≡◌, ◌≢◌, refl, ◌∙◌, sym, true, false, Option, none, some, List, ◌∷◌, [], ◌++◌, nat_eq,
  nat_beq_iff, arith, inl, inr,
}
use calod.Prelude.Map.{get, insert, get-insert}
use calod.Ledger.Json.{Platform}
use calod.Ledger.Model.{Uuid, EffectRecord, is_retention_terminal, Result, ok, err}
use calod.Ledger.Indexes.{
  Indexes, Applied, EffectKey, key_eq, key_beq_iff, effect_key_of, RecordKind, run_created,
  run_updated, effect_applied, event_appended, checkpoint_created, retention_applied, apply,
  put_run,
}
use calod.Ledger.Indexes.Sound.{IsSound, FitsEffect}
use calod.Ledger.State.{Env, Ledger, AppendOutcome, WalPosition, acknowledged, failed, persist}
use calod.Ledger.Lifecycle.Stored.{Stores, apply_effect-Stores, effects-apply_event, settle-indexes}

-- A key names an effect that is in a final state.
pub record IsFinal (key : EffectKey) (e : EffectRecord) (ix : Indexes) : Type 0 where
  pub there : get e.id ix.effects_by_id ≡ some e
  pub named : get key ix.effect_ids ≡ some e.id
  pub final : is_retention_terminal e.state ≡ true

-- A record that writes no effect, or another one.
abbrev pub Spares : EffectRecord → Indexes → RecordKind → Type 0
Spares e ix (effect_applied effect event) = FitsEffect ix effect × (effect.id ≢ e.id)
Spares e ix (retention_applied cutoff runs effects) = ⊥
Spares e ix kind = Unit {0}

other_key :
    (p : Platform) (ix : Indexes) (key : EffectKey) (e effect : EffectRecord)
    → IsSound p ix
    → IsFinal key e ix
    → FitsEffect ix effect
    → effect.id ≢ e.id
    → effect_key_of effect ≢ key
other_key p ix key e effect sound final (inl (no_id, no_key)) other same =
    cc (no_key, final.named, same)
other_key p ix key e effect sound final (inr (old, there, same_key)) other same =
    let named = sound.keyed effect.id old there in other (cc (named, final.named, same, same_key))

Stores-IsFinal :
    (ix after : Indexes) (key : EffectKey) (e effect : EffectRecord)
    → Stores effect ix after
    → effect.id ≢ e.id
    → effect_key_of effect ≢ key
    → IsFinal key e ix
    → IsFinal key e after
Stores-IsFinal ix after key e effect s other_id other_key final = record {
  there = rw (s.by_id) (
      ground (
        arith,
        final.there,
        get-insert effect.id e.id effect ix.effects_by_id,
        nat_beq_iff effect.id e.id,
      ));
  named = rw (s.by_key) (
      ground (
        arith,
        final.named,
        get-insert (effect_key_of effect) key effect.id ix.effect_ids,
        key_beq_iff (effect_key_of effect) key,
      ));
  final = final.final;
}

same_maps-IsFinal :
    (ix after : Indexes) (key : EffectKey) (e : EffectRecord)
    → after.effects_by_id ≡ ix.effects_by_id
    → after.effect_ids ≡ ix.effect_ids
    → IsFinal key e ix
    → IsFinal key e after
same_maps-IsFinal ix after key e by_id by_key final = record {
  there = rw by_id final.there;
  named = rw by_key final.named;
  final = final.final;
}

apply-IsFinal :
    (p : Platform) (ix : Indexes) (kind : RecordKind) (key : EffectKey) (e : EffectRecord)
    → IsSound p ix
    → Spares e ix kind
    → IsFinal key e ix
    → IsFinal key e (apply kind ix).1
unfolding apply put_run
apply-IsFinal p ix (run_created run) key e sound spares final =
    same_maps-IsFinal ix _ key e refl refl final
apply-IsFinal p ix (run_updated run) key e sound spares final =
    same_maps-IsFinal ix _ key e refl refl final
apply-IsFinal p ix (effect_applied effect event) key e sound (fits, other) final =
    Stores-IsFinal ix _ key e effect (apply_effect-Stores effect event ix) other
      (other_key p ix key e effect sound final fits other) final
apply-IsFinal p ix (event_appended event) key e sound spares final =
    let (by_id, by_key) = effects-apply_event event ix in
    same_maps-IsFinal ix _ key e by_id by_key final
apply-IsFinal p ix (checkpoint_created c) key e sound spares final =
    same_maps-IsFinal ix _ key e refl refl final
apply-IsFinal p ix (retention_applied cutoff runs effects) key e sound spares final = absurd spares

persist_answer :
    (p : Platform) (env : Env) (kind : RecordKind) (l : Ledger) (key : EffectKey) (e : EffectRecord)
    (answer : AppendOutcome)
    → env.append ≡ answer
    → IsSound p l.indexes
    → Spares e l.indexes kind
    → IsFinal key e l.indexes
    → IsFinal key e (persist env kind l).1.indexes
unfolding persist
persist_answer p env kind l key e (acknowledged position) same sound spares final =
    rw
      (
        same,
        persist,
        settle-indexes position (apply kind l.indexes) (record l { log = l.log ++ kind ∷ [] }),
      )
      (apply-IsFinal p l.indexes kind key e sound spares final)
persist_answer p env kind l key e (failed x) same sound spares final = rw (same, persist) final

pub persist-IsFinal :
    (p : Platform) (env : Env) (kind : RecordKind) (l : Ledger) (key : EffectKey) (e : EffectRecord)
    → IsSound p l.indexes
    → Spares e l.indexes kind
    → IsFinal key e l.indexes
    → IsFinal key e (persist env kind l).1.indexes
persist-IsFinal p env kind l key e = persist_answer p env kind l key e env.append refl
