-- ===== src/Ledger/Refusals.antt =====
-- About calls that are answered with an error.
use calod.Prelude.{
  ◌≡◌, refl, Option, none, some, Str, [], ◌∷◌, ◌++◌, Bool, true, false, nat_eq, if◌then◌else◌,
}
use calod.Ledger.Json.{Platform, Value}
use calod.Ledger.Model.{
  Uuid, Scope, EffectRecord, EventRecord, EffectDecisionType, LedgerError, UpdateEffectRequest,
  CallerCapabilities, RetentionReport, Result, ok, err,
}
use calod.Ledger.Indexes.{Applied, RecordKind, effect_applied, apply}
use calod.Ledger.Indexes.Sound.{IsSound, Fits, FitsEffect}
use calod.Ledger.Indexes.Apply.{apply-Succeeds}
use calod.Ledger.State.{
  Env, Ledger, AppendOutcome, WalPosition, acknowledged, failed, settle, persist,
  build_effect_event,
}
use calod.Ledger.Acquire.{Plan, acquire_plan, finish_plan, persist_effect, run_plan, acquire}
use calod.Ledger.Transition.{
  transition_plan, finish_transition, run_transition, transition, transition_detail,
}
use calod.Ledger.Runs.{
  commit, returning, create_run_plan, create_run, update_run_plan, update_run, fork_run_plan,
  fork_run,
}
use calod.Ledger.Timeline.{
  append_event_plan, append_event, create_checkpoint_plan, create_checkpoint,
}
use calod.Ledger.Retention.{finish_retention, apply_retention}
use calod.Ledger.Calls.{
  Call, acquires, transitions, creates_run, updates_run, forks_run, appends_event,
  creates_checkpoint, applies_retention, step,
}
use calod.Ledger.Consistency.Persist.{IsConsistent, HasRoom}
use calod.Ledger.Consistency.Events.{FitsEffectEvent}
use calod.Ledger.Consistency.Effects.{IsFresh, PlanFits, writes, reads, refused, acquire_plan-fits}
use calod.Ledger.Consistency.Transitions.{transition_plan-fits}
use calod.Ledger.Consistency.Plans.{
  create_run_plan-Fits, update_run_plan-Fits, fork_run_plan-Fits, append_event_plan-Fits,
  create_checkpoint_plan-Fits,
}

-- The error of an answer.
abbrev pub error_of {ℓ} : {A : Type ℓ} → Result A → Option LedgerError
error_of (ok a) = none
error_of (err e) = some e

-- If an answer is an error, the ledger is the old one.
abbrev Unchanged {ℓ} : {A : Type ℓ} → Ledger → Result A × Ledger → Type 0
Unchanged l r = (e : LedgerError) → error_of r.0 ≡ some e → r.1 ≡ l

settle-Unchanged :
    (position : WalPosition) (a : Applied) (l m : Ledger)
    → a.0 ≡ none
    → Unchanged l (settle position a m)
unfolding settle
settle-Unchanged position (none, ix) l m h e wrong = absurd (cc)
settle-Unchanged position (some x, ix) l m h e wrong = absurd (cc)

persist_answer :
    (env : Env) (kind : RecordKind) (l : Ledger) (answer : AppendOutcome)
    → env.append ≡ answer
    → (apply kind l.indexes).0 ≡ none
    → Unchanged l (persist env kind l)
unfolding persist
persist_answer env kind l (failed x) same fine e wrong = rw (same, persist) refl
persist_answer env kind l (acknowledged position) same fine e wrong =
    rw (same, persist)
      (settle-Unchanged position (apply kind l.indexes) l (record l { log = l.log ++ kind ∷ [] })
        fine e (rw (same, persist) at wrong))

persist-Unchanged :
    (p : Platform) (env : Env) (kind : RecordKind) (l : Ledger)
    → IsSound p l.indexes
    → Fits p l.indexes kind
    → Unchanged l (persist env kind l)
persist-Unchanged p env kind l sound fits =
    persist_answer env kind l env.append refl (apply-Succeeds p l.indexes kind sound fits).no_error

returning-Unchanged :
    {A : Type 0} (view : A) (l : Ledger) (r : Result (Unit {0}) × Ledger)
    → Unchanged l r
    → Unchanged l (returning view r)
unfolding returning
returning-Unchanged view l (ok u, m) h e wrong = absurd (cc)
returning-Unchanged view l (err x, m) h e wrong = h e wrong

commit-Unchanged :
    {A : Type 0} (p : Platform) (env : Env) (l : Ledger) (plan : Result (RecordKind × A))
    → IsSound p l.indexes
    → ((kind : RecordKind) (view : A) → plan ≡ ok (kind, view) → Fits p l.indexes kind)
    → Unchanged l (commit env plan l)
unfolding commit
commit-Unchanged p env l (err x) sound fits = λ e wrong. refl
commit-Unchanged p env l (ok (kind, view)) sound fits =
    returning-Unchanged view l (persist env kind l)
      (persist-Unchanged p env kind l sound (fits kind view refl))

module _ (p : Platform) (env : Env) (scope : Scope) (l : Ledger) (c : IsConsistent p l)
    (space : HasRoom l) where
  persist_effect-Unchanged :
      (effect : EffectRecord) (event_type : Str) (detail : Value) (r : Result (Option EventRecord))
      → build_effect_event p env scope effect event_type detail l ≡ r
      → FitsEffect l.indexes effect
      → Unchanged l (persist_effect env effect r l)
  unfolding persist_effect
  persist_effect-Unchanged effect event_type detail (err x) built fits = λ e wrong. refl
  persist_effect-Unchanged effect event_type detail (ok event) built fits =
      persist-Unchanged p env (effect_applied effect event) l c.sound
        (FitsEffectEvent p env scope l c space effect event_type detail event built fits)

  finish_plan-Unchanged :
      (effect : EffectRecord) (decision : EffectDecisionType) (token : Option Str)
      (r : Result (Unit {0}) × Ledger)
      → Unchanged l r
      → Unchanged l (finish_plan effect decision token r)
  unfolding finish_plan
  finish_plan-Unchanged effect decision token (ok u, m) h e wrong = absurd (cc)
  finish_plan-Unchanged effect decision token (err x, m) h e wrong = h e wrong

  finish_transition-Unchanged :
      (next : EffectRecord) (r : Result (Unit {0}) × Ledger)
      → Unchanged l r
      → Unchanged l (finish_transition next r)
  unfolding finish_transition
  finish_transition-Unchanged next (ok u, m) h e wrong = absurd (cc)
  finish_transition-Unchanged next (err x, m) h e wrong = h e wrong

  run_plan-Unchanged :
      (plan : Result Plan) → PlanFits l.indexes plan → Unchanged l (run_plan p env scope plan l)
  unfolding run_plan
  run_plan-Unchanged plan refused = λ e wrong. refl
  run_plan-Unchanged plan reads = λ e wrong. absurd (cc)
  run_plan-Unchanged plan (writes {effect} {event_type} {detail} {decision} {token} fits) =
      finish_plan-Unchanged effect decision token _
        (persist_effect-Unchanged effect event_type detail _ refl fits)

  run_transition-Unchanged :
      (id : Uuid) (req : UpdateEffectRequest) (capabilities : CallerCapabilities)
      (r : Result (EffectRecord × EffectRecord × Str))
      → transition_plan p env scope id req capabilities l ≡ r
      → Unchanged l (run_transition p env scope req.transition r l)
  unfolding run_transition
  run_transition-Unchanged id req capabilities (err x) planned = λ e wrong. refl
  run_transition-Unchanged id req capabilities (ok (old, next, event_type)) planned =
      finish_transition-Unchanged next _ (
        persist_effect-Unchanged next event_type
          (transition_detail old.state next.state req.transition) _ refl
          (transition_plan-fits p env scope id req capabilities l old next event_type c.sound
            planned))

finish_retention-Unchanged :
    (report : RetentionReport) (l : Ledger) (r : Result (Unit {0}) × Ledger)
    → Unchanged l r
    → Unchanged l (finish_retention report r)
unfolding finish_retention
finish_retention-Unchanged report l (ok u, m) h e wrong = absurd (cc)
finish_retention-Unchanged report l (err x, m) h e wrong = h e wrong

Unchanged-if :
    {A : Type 0} (l : Ledger) (b : Bool) (a : A) (y : Result A × Ledger)
    → Unchanged l y
    → Unchanged l (if b then (ok a, l) else y)
Unchanged-if l true a y h e wrong = absurd (cc)
Unchanged-if l false a y h e wrong = h e wrong

-- The error that a call answers with, if it does.
unfoldable pub refusal : Platform → Env → Call → Ledger → Option LedgerError
refusal p env (acquires scope key req) l = error_of (acquire p env scope key req l).0
refusal p env (transitions scope id req capabilities) l =
    error_of (transition p env scope id req capabilities l).0
refusal p env (creates_run scope req) l = error_of (create_run env scope req l).0
refusal p env (updates_run scope id req expected) l =
    error_of (update_run env scope id req expected l).0
refusal p env (forks_run scope id req) l = error_of (fork_run env scope id req l).0
refusal p env (appends_event scope id req) l = error_of (append_event p env scope id req l).0
refusal p env (creates_checkpoint scope id req expected) l =
    error_of (create_checkpoint p env scope id req expected l).0
refusal p env (applies_retention policy) l = error_of (apply_retention env policy l).0

-- A call on a consistent ledger, with fresh identifiers and with room on every timeline, that answers
-- with an error, be it of validation, of look-up, of authority, of a conflict or of the log writer,
-- leaves the whole ledger as it was: indexes, log, counters and position.
pub refused_call_changes_nothing :
    (p : Platform) (env : Env) (call : Call) (l : Ledger) (e : LedgerError)
    → IsConsistent p l
    → HasRoom l
    → IsFresh env l
    → refusal p env call l ≡ some e
    → step p env call l ≡ l
unfolding refusal step acquire transition create_run update_run fork_run append_event
    create_checkpoint apply_retention
refused_call_changes_nothing p env (acquires scope key req) l e c space fresh h =
    run_plan-Unchanged p env scope l c space (acquire_plan p env scope key req l)
      (acquire_plan-fits p env scope key req l c.sound fresh) e h
refused_call_changes_nothing p env (transitions scope id req capabilities) l e c space fresh h =
    run_transition-Unchanged p env scope l c space id req capabilities
      (transition_plan p env scope id req capabilities l) refl e h
refused_call_changes_nothing p env (creates_run scope req) l e c space fresh h =
    commit-Unchanged p env l (create_run_plan env scope req) c.sound
      (create_run_plan-Fits p env scope l c req fresh) e h
refused_call_changes_nothing p env (updates_run scope id req expected) l e c space fresh h =
    commit-Unchanged p env l (update_run_plan env scope id req expected l) c.sound
      (update_run_plan-Fits p env scope l c id req expected) e h
refused_call_changes_nothing p env (forks_run scope id req) l e c space fresh h =
    commit-Unchanged p env l (fork_run_plan env scope id req l) c.sound
      (fork_run_plan-Fits p env scope l c id req fresh) e h
refused_call_changes_nothing p env (appends_event scope id req) l e c space fresh h =
    commit-Unchanged p env l (append_event_plan p env scope id req l) c.sound
      (append_event_plan-Fits p env scope l c space id req) e h
refused_call_changes_nothing p env (creates_checkpoint scope id req expected) l e c space fresh h =
    commit-Unchanged p env l (create_checkpoint_plan p env scope id req expected l) c.sound
      (create_checkpoint_plan-Fits p env scope l c id req expected) e h
refused_call_changes_nothing p env (applies_retention policy) l e c space fresh h =
    Unchanged-if l _ _ _ (finish_retention-Unchanged _ l _ (persist-Unchanged p env _ l c.sound tt))
      e h
