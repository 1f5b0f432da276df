-- ===== src/Ledger/Lifecycle/Final/Steps.antt =====
-- About final effects and the calls other than retention.
use calod.Prelude.{◌≡◌, refl, ap, true, false, nat_eq, Bool}
use calod.Ledger.Json.{Platform}
use calod.Ledger.Model.{EffectRecord, Result, ok, err}
use calod.Ledger.Indexes.{
  Indexes, EffectKey, key_eq, RecordKind, run_created, run_updated, event_appended,
  checkpoint_created,
}
use calod.Ledger.State.{Env, Ledger, persist}
use calod.Ledger.Runs.{
  commit, returning, create_run_plan, create_run, update_run_plan, update_run, fork_run_plan,
  fork_run,
}
use calod.Ledger.Timeline.{
  append_event_plan, append_event, create_checkpoint_plan, create_checkpoint,
}
use calod.Ledger.Calls.{
  Call, acquires, transitions, creates_run, updates_run, forks_run, appends_event,
  creates_checkpoint, applies_retention, step,
}
use calod.Ledger.Consistency.Effects.{IsFresh}
use calod.Ledger.Consistency.Plans.{created, updated, forked, event_built, checkpointed}
use calod.Ledger.Indexes.Sound.{IsSound}
use calod.Ledger.Lifecycle.Final.{IsFinal, Spares, persist-IsFinal}
use calod.Ledger.Lifecycle.Final.Keeps.{acquire-IsFinal, transition-IsFinal}

-- A retention pass is the only call that removes effects.
abbrev pub prunes : Call → Bool
prunes (applies_retention policy) = true
prunes call = false

returning-indexes :
    {A : Type 0} (view : A) (r : Result (Unit {0}) × Ledger)
    → (returning view r).1.indexes ≡ r.1.indexes
unfolding returning
returning-indexes view (ok u, l) = refl
returning-indexes view (err x, l) = refl

-- A record of a run.
abbrev is_run_record : RecordKind → Bool
is_run_record (run_created run) = true
is_run_record (run_updated run) = true
is_run_record (event_appended event) = true
is_run_record (checkpoint_created c) = true
is_run_record kind = false

is_run_record-Spares :
    (e : EffectRecord) (ix : Indexes) (kind : RecordKind)
    → is_run_record kind ≡ true
    → Spares e ix kind
is_run_record-Spares e ix (run_created run) h = tt
is_run_record-Spares e ix (run_updated run) h = tt
is_run_record-Spares e ix (event_appended event) h = tt
is_run_record-Spares e ix (checkpoint_created c) h = tt
is_run_record-Spares e ix kind h = absurd (cc)

module _ (p : Platform) (env : Env) (l : Ledger) (sound : IsSound p l.indexes) (key : EffectKey)
    (e : EffectRecord) (final : IsFinal key e l.indexes) where
  commit-IsFinal :
      {A : Type 0} (plan : Result (RecordKind × A))
      → ((kind : RecordKind) (view : A) → plan ≡ ok (kind, view) → is_run_record kind ≡ true)
      → IsFinal key e (commit env plan l).1.indexes
  unfolding commit
  commit-IsFinal (err x) runs = final
  commit-IsFinal (ok (kind, view)) runs = rw (returning-indexes view (persist env kind l)) (
      persist-IsFinal p env kind l key e sound
        (is_run_record-Spares e l.indexes kind (runs kind view refl)) final)

  pub step-IsFinal :
      (call : Call)
      → IsFresh env l
      → prunes call ≡ false
      → IsFinal key e (step p env call l).indexes
  unfolding step create_run update_run fork_run append_event create_checkpoint
  step-IsFinal (acquires s name req) fresh kept =
      acquire-IsFinal p env s l sound key e final name req fresh
  step-IsFinal (transitions s id req capabilities) fresh kept =
      transition-IsFinal p env s l sound key e final id req capabilities
  step-IsFinal (creates_run s req) fresh kept =
      commit-IsFinal (create_run_plan env s req)
        (λ kind view h. ap is_run_record (created p env s l kind req view h))
  step-IsFinal (updates_run s id req expected) fresh kept =
      commit-IsFinal (update_run_plan env s id req expected l) (λ kind view h.
        let (run, found, same) = updated p env s l kind id req expected view h in
        ap is_run_record same)
  step-IsFinal (forks_run s id req) fresh kept =
      commit-IsFinal (fork_run_plan env s id req l) (λ kind view h.
        let (parent, sequence, same) = forked p env s l kind id req view h in ap is_run_record same)
  step-IsFinal (appends_event s id req) fresh kept =
      commit-IsFinal (append_event_plan p env s id req l) (λ kind view h.
        let (run, found, same) = event_built p env s l kind id req view h in ap is_run_record same)
  step-IsFinal (creates_checkpoint s id req expected) fresh kept =
      commit-IsFinal (create_checkpoint_plan p env s id req expected l)
        (λ kind view h. ap is_run_record (checkpointed p env s l kind id req expected view h))
  step-IsFinal (applies_retention policy) fresh kept = absurd (cc)
