-- ===== src/Ledger/Indexes/Apply.antt =====
-- About applying a record to the indexes, and about replay.
use calod.Prelude.{
  ◌≡◌, refl, ap, none, some, List, [], ◌∷◌, ◌++◌, arith, inl, inr, nat_eq, Option-cases,
}
use calod.Prelude.Map.{get}
use calod.Ledger.Json.{Platform}
use calod.Ledger.Model.{EffectRecord, EventRecord, RunRecord}
use calod.Ledger.Indexes.{
  Indexes, Applied, RecordKind, run_created, run_updated, effect_applied, event_appended,
  checkpoint_created, retention_applied, put_effect, apply_event, apply, replay,
}
use calod.Ledger.Indexes.Sound.{IsSound, HeadIs, Fits, FitsEvent, timeline}
use calod.Ledger.Indexes.Puts.{put_run-IsSound, put_effect-IsSound}
use calod.Ledger.Indexes.Events.{apply_event-appended, appended-IsSound}
use calod.Ledger.Indexes.Prunes.{prune_runs-IsSound, prune_effects-IsSound}

-- An application that succeeds and leaves the indexes sound.
pub record Succeeds (p : Platform) (a : Applied) : Type 0 where
  pub no_error : a.0 ≡ none
  pub sound : IsSound p a.1

apply_event-Succeeds :
    (p : Platform) (ix : Indexes) (e : EventRecord)
    → IsSound p ix
    → FitsEvent p ix e
    → Succeeds p (apply_event e ix)
apply_event-Succeeds p ix e sound fits =
    rw (apply_event-appended p ix e fits)
      (record { no_error = refl; sound = appended-IsSound p ix sound e fits })

put_effect-FitsEvent :
    (p : Platform) (ix : Indexes) (effect : EffectRecord) (e : EventRecord)
    → FitsEvent p ix e
    → FitsEvent p (put_effect effect ix) e
unfolding put_effect
put_effect-FitsEvent p ix effect e fits = record {
  run = fits.run;
  there = fits.there;
  extends = fits.extends;
}

created_head :
    (p : Platform) (ix : Indexes) (run : RunRecord)
    → IsSound p ix
    → get run.id ix.runs ≡ none
    → HeadIs run []
    → HeadIs run (timeline run.id ix)
created_head p ix run sound absent h = rw (sound.orphans run.id absent) h

pub apply-Succeeds :
    (p : Platform) (ix : Indexes) (kind : RecordKind)
    → IsSound p ix
    → Fits p ix kind
    → Succeeds p (apply kind ix)
unfolding apply
apply-Succeeds p ix (run_created run) sound (absent, head) = record {
  no_error = refl;
  sound = put_run-IsSound p ix sound run (created_head p ix run sound absent head);
}
apply-Succeeds p ix (run_updated run) sound (old, there, head) = record {
  no_error = refl;
  sound = put_run-IsSound p ix sound run head;
}
apply-Succeeds p ix (effect_applied effect none) sound fits = record {
  no_error = refl;
  sound = put_effect-IsSound p ix sound effect fits;
}
apply-Succeeds p ix (effect_applied effect (some event)) sound (fits, next) =
    apply_event-Succeeds p (put_effect effect ix) event (put_effect-IsSound p ix sound effect fits)
      (put_effect-FitsEvent p ix effect event next)
apply-Succeeds p ix (event_appended event) sound fits = apply_event-Succeeds p ix event sound fits
apply-Succeeds p ix (checkpoint_created c) sound fits = record {
  no_error = refl;
  sound = record {
    heads = sound.heads;
    run_ids = sound.run_ids;
    orphans = sound.orphans;
    chains = sound.chains;
    effect_ids_agree = sound.effect_ids_agree;
    keyed = sound.keyed;
    named = sound.named;
  };
}
apply-Succeeds p ix (retention_applied cutoff run_ids effect_ids) sound fits = record {
  no_error = refl;
  sound = prune_effects-IsSound p _ effect_ids (prune_runs-IsSound p ix run_ids sound);
}

replay_one :
    (kind : RecordKind) (ix : Indexes)
    → (apply kind ix).0 ≡ none
    → replay (kind ∷ []) ix ≡ (none, (apply kind ix).1)
unfolding replay
replay_one kind ix ok = ground arith

-- One more record in the log is one more application after the replay.
pub replay-append :
    (log : List RecordKind) (kind : RecordKind) (start ix : Indexes)
    → replay log start ≡ (none, ix)
    → (apply kind ix).0 ≡ none
    → replay (log ++ kind ∷ []) start ≡ (none, (apply kind ix).1)
unfolding replay
replay-append [] kind start ix h ok =
    let same : start ≡ ix = ap (λ (a : Applied). a.1) h in rw same (replay_one kind ix ok)
replay-append (k ∷ log) kind start ix h ok = elim (Option-cases (apply k start).0) [
  | inl e ↦ rw (e, replay) (replay-append log kind (apply k start).1 ix (rw (e, replay) at h) ok)
  | inr (x, e) ↦ cc (e, h)
]
