-- ===== src/Ledger/Consistency/Plans.antt =====
-- What the operations on runs, their events and their checkpoints write, and that it fits.
use calod.Prelude.{◌≡◌, refl, arith, Option, none, [], nat_eq}
use calod.Prelude.Int.{ℤ}
use calod.Prelude.Map.{get}
use calod.Ledger.Json.{Platform}
use calod.Ledger.Model.{
  Uuid, Scope, RunRecord, CreateRunRequest, UpdateRunRequest, ForkRunRequest, AppendEventRequest,
  CreateCheckpointRequest, >>=-eq-ok, ok, Run, Event, Checkpoint, CheckpointRecord,
}
use calod.Ledger.Indexes.{
  RecordKind, run_created, run_updated, event_appended, checkpoint_created, last_hash,
}
use calod.Ledger.Indexes.Sound.{HeadIs, Fits, timeline}
use calod.Ledger.State.{Env, Ledger, run_in_scope, build_event}
use calod.Ledger.Runs.{
  new_run, forked_run, updated_run, check_version, check_status, check_reason, fork_sequence,
  create_run_plan, update_run_plan, fork_run_plan,
}
use calod.Ledger.Timeline.{append_event_plan, create_checkpoint_plan, new_checkpoint}
use calod.Ledger.Validate.{validate_event_type}
use calod.Ledger.Consistency.Persist.{IsConsistent, HasRoom}
use calod.Ledger.Consistency.Events.{run_in_scope_sound, build_event-FitsEvent}
use calod.Ledger.Consistency.Effects.{IsFresh}

new_run-head :
    (env : Env) (scope : Scope) (req : CreateRunRequest) → HeadIs (new_run env scope req) []
unfolding new_run last_hash
new_run-head env scope req = record { last_sequence = refl; head = refl }

forked_run-head :
    (env : Env) (scope : Scope) (req : ForkRunRequest) (parent : RunRecord) (sequence : ℤ)
    → HeadIs (forked_run env scope req parent sequence) []
unfolding forked_run last_hash
forked_run-head env scope req parent sequence = record { last_sequence = refl; head = refl }

-- What the plans write, when they are not refused.
module _ (p : Platform) (env : Env) (scope : Scope) (l : Ledger) (kind : RecordKind) where
  pub created :
      (req : CreateRunRequest) (view : Run)
      → create_run_plan env scope req ≡ ok (kind, view)
      → kind ≡ run_created (new_run env scope req)
  unfolding create_run_plan
  created req view h = ground arith

  pub updated :
      (run_id : Uuid) (req : UpdateRunRequest) (expected : Option ℤ) (view : Run)
      → update_run_plan env scope run_id req expected l ≡ ok (kind, view)
      → (run : RunRecord) × (run_in_scope scope run_id l ≡ ok run)
        × (kind ≡ run_updated (updated_run env req.status run))
  unfolding update_run_plan
  updated run_id req expected view h =
      let (run, found, h1) = >>=-eq-ok (run_in_scope scope run_id l) _ {b = (kind, view)} h in
      let (u, versioned, h2) = >>=-eq-ok (check_version expected run) _ {b = (kind, view)} h1 in
      let (v, allowed, h3) = >>=-eq-ok (check_status req.status run) _ {b = (kind, view)} h2 in
      (run, found, cc h3)

  pub forked :
      (run_id : Uuid) (req : ForkRunRequest) (view : Run)
      → fork_run_plan env scope run_id req l ≡ ok (kind, view)
      → (parent : RunRecord) × (sequence : ℤ) × (kind
          ≡ run_created (forked_run env scope req parent sequence))
  unfolding fork_run_plan
  forked run_id req view h =
      let (u, reasoned, h1) = >>=-eq-ok (check_reason req.reason) _ {b = (kind, view)} h in
      let (parent, found, h2) = >>=-eq-ok (run_in_scope scope run_id l) _ {b = (kind, view)} h1 in
      let (sequence, at, h3) =
        >>=-eq-ok (fork_sequence req.from_event_sequence req.from_checkpoint_id parent run_id l) _
          {b = (kind, view)} h2 in
      (parent, sequence, cc h3)

  pub event_built :
      (run_id : Uuid) (req : AppendEventRequest) (view : Event)
      → append_event_plan p env scope run_id req l ≡ ok (kind, view)
      → (run : RunRecord) × (run_in_scope scope run_id l ≡ ok run)
        × (kind
            ≡ event_appended
                (build_event p env scope run req.event_type req.occurred_at_ms req.payload))
  unfolding append_event_plan
  event_built run_id req view h =
      let (u, valid, h1) = >>=-eq-ok (validate_event_type req.event_type) _ {b = (kind, view)} h in
      let (run, found, h2) = >>=-eq-ok (run_in_scope scope run_id l) _ {b = (kind, view)} h1 in
      (run, found, cc h2)

  pub checkpointed :
      (run_id : Uuid) (req : CreateCheckpointRequest) (expected : Option ℤ) (view : Checkpoint)
      → create_checkpoint_plan p env scope run_id req expected l ≡ ok (kind, view)
      → kind ≡ checkpoint_created (new_checkpoint p env scope run_id req)
  unfolding create_checkpoint_plan
  checkpointed run_id req expected view h = ground arith

module _ (p : Platform) (env : Env) (scope : Scope) (l : Ledger) (c : IsConsistent p l) where
  Fits-new :
      (kind : RecordKind) (run : RunRecord)
      → kind ≡ run_created run
      → (get run.id l.indexes.runs ≡ none) × HeadIs run []
      → Fits p l.indexes kind
  Fits-new kind run e h = rw e h

  updated-Fits :
      (run_id : Uuid) (req : UpdateRunRequest) (kind : RecordKind) (run : RunRecord)
      → run_in_scope scope run_id l ≡ ok run
      → kind ≡ run_updated (updated_run env req.status run)
      → Fits p l.indexes kind
  unfolding updated_run
  updated-Fits run_id req kind run found e =
      let there = (run_in_scope_sound scope run_id l run found).there in
      let id : run.id ≡ run_id = c.sound.run_ids run_id run there in
      let head : HeadIs run (timeline run_id l.indexes) = c.sound.heads run_id run there in
      rw e (
        run,
        simp id there,
        record { last_sequence = simp id head.last_sequence; head = simp id head.head },
      )

  event-Fits :
      HasRoom l
      → (run_id : Uuid) (req : AppendEventRequest) (kind : RecordKind) (run : RunRecord)
      → run_in_scope scope run_id l ≡ ok run
      → kind
        ≡ event_appended (build_event p env scope run req.event_type req.occurred_at_ms req.payload)
      → Fits p l.indexes kind
  event-Fits space run_id req kind run found e = rw e (
      build_event-FitsEvent p env scope l c space run_id run req.event_type req.occurred_at_ms
        req.payload (run_in_scope_sound scope run_id l run found).there)

  Fits-checkpoint :
      (kind : RecordKind) (checkpoint : CheckpointRecord)
      → kind ≡ checkpoint_created checkpoint
      → Fits p l.indexes kind
  Fits-checkpoint kind checkpoint e = rw e tt

  -- The record of every plan that is not refused fits.
  pub create_run_plan-Fits :
      (req : CreateRunRequest)
      → IsFresh env l
      → (kind : RecordKind) (view : Run) → create_run_plan env scope req ≡ ok (kind, view)
      → Fits p l.indexes kind
  unfolding new_run
  create_run_plan-Fits req fresh kind view h =
      Fits-new kind (new_run env scope req) (created p env scope l kind req view h)
        (fresh.no_run, new_run-head env scope req)

  pub update_run_plan-Fits :
      (run_id : Uuid) (req : UpdateRunRequest) (expected : Option ℤ) (kind : RecordKind)
      (view : Run)
      → update_run_plan env scope run_id req expected l ≡ ok (kind, view)
      → Fits p l.indexes kind
  update_run_plan-Fits run_id req expected kind view h =
      let (run, found, e) = updated p env scope l kind run_id req expected view h in
      updated-Fits run_id req kind run found e

  pub fork_run_plan-Fits :
      (run_id : Uuid) (req : ForkRunRequest)
      → IsFresh env l
      → (kind : RecordKind) (view : Run) → fork_run_plan env scope run_id req l ≡ ok (kind, view)
      → Fits p l.indexes kind
  unfolding forked_run
  fork_run_plan-Fits run_id req fresh kind view h =
      let (parent, sequence, e) = forked p env scope l kind run_id req view h in
      Fits-new kind (forked_run env scope req parent sequence) e
        (fresh.no_run, forked_run-head env scope req parent sequence)

  pub append_event_plan-Fits :
      HasRoom l
      → (run_id : Uuid) (req : AppendEventRequest) (kind : RecordKind) (view : Event)
      → append_event_plan p env scope run_id req l ≡ ok (kind, view)
      → Fits p l.indexes kind
  append_event_plan-Fits space run_id req kind view h =
      let (run, found, e) = event_built p env scope l kind run_id req view h in
      event-Fits space run_id req kind run found e

  pub create_checkpoint_plan-Fits :
      (run_id : Uuid) (req : CreateCheckpointRequest) (expected : Option ℤ) (kind : RecordKind)
      (view : Checkpoint)
      → create_checkpoint_plan p env scope run_id req expected l ≡ ok (kind, view)
      → Fits p l.indexes kind
  create_checkpoint_plan-Fits run_id req expected kind view h =
      Fits-checkpoint kind (new_checkpoint p env scope run_id req)
        (checkpointed p env scope l kind run_id req expected view h)
