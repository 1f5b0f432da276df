-- ===== src/Ledger/Consistency/Runs.antt =====
-- About the operations on runs, events and checkpoints, and the consistency of the ledger.
use calod.Prelude.{◌≡◌, refl, Bool, true, false, if◌then◌else◌, Option, nat_eq}
use calod.Prelude.Int.{ℤ}
use calod.Ledger.Json.{Platform}
use calod.Ledger.Model.{
  Uuid, Scope, CreateRunRequest, UpdateRunRequest, ForkRunRequest, AppendEventRequest,
  CreateCheckpointRequest, Result, ok, err, RetentionPolicy, RetentionReport,
}
use calod.Ledger.Indexes.{RecordKind}
use calod.Ledger.Indexes.Sound.{Fits}
use calod.Ledger.State.{Env, Ledger, persist}
use calod.Ledger.Runs.{
  commit, returning, create_run_plan, create_run, update_run_plan, update_run, fork_run_plan,
  fork_run,
}
use calod.Ledger.Timeline.{
  append_event_plan, append_event, create_checkpoint_plan, create_checkpoint,
}
use calod.Ledger.Retention.{finish_retention, apply_retention}
use calod.Ledger.Consistency.Persist.{IsConsistent, HasRoom, persist-IsConsistent}
use calod.Ledger.Consistency.Effects.{IsFresh}
use calod.Ledger.Consistency.Plans.{
  create_run_plan-Fits, update_run_plan-Fits, fork_run_plan-Fits, append_event_plan-Fits,
  create_checkpoint_plan-Fits,
}

returning-IsConsistent :
    {A : Type 0} (p : Platform) (view : A) (r : Result (Unit {0}) × Ledger)
    → IsConsistent p r.1
    → IsConsistent p (returning view r).1
unfolding returning
returning-IsConsistent p view (ok u, l) c = c
returning-IsConsistent p view (err e, l) c = c

commit-IsConsistent :
    {A : Type 0} (p : Platform) (env : Env) (l : Ledger) (plan : Result (RecordKind × A))
    → IsConsistent p l
    → ((kind : RecordKind) (view : A) → plan ≡ ok (kind, view) → Fits p l.indexes kind)
    → IsConsistent p (commit env plan l).1
unfolding commit
commit-IsConsistent p env l (err e) c fits = c
commit-IsConsistent p env l (ok (kind, view)) c fits =
    returning-IsConsistent p view (persist env kind l)
      (persist-IsConsistent p env kind l c (fits kind view refl))

module _ (p : Platform) (env : Env) (scope : Scope) (l : Ledger) (c : IsConsistent p l) where
  pub create_run-IsConsistent :
      (req : CreateRunRequest) → IsFresh env l → IsConsistent p (create_run env scope req l).1
  unfolding create_run
  create_run-IsConsistent req fresh =
      commit-IsConsistent p env l (create_run_plan env scope req) c
        (create_run_plan-Fits p env scope l c req fresh)

  pub update_run-IsConsistent :
      (run_id : Uuid) (req : UpdateRunRequest) (expected : Option ℤ)
      → IsConsistent p (update_run env scope run_id req expected l).1
  unfolding update_run
  update_run-IsConsistent run_id req expected =
      commit-IsConsistent p env l (update_run_plan env scope run_id req expected l) c
        (update_run_plan-Fits p env scope l c run_id req expected)

  pub fork_run-IsConsistent :
      (run_id : Uuid) (req : ForkRunRequest)
      → IsFresh env l
      → IsConsistent p (fork_run env scope run_id req l).1
  unfolding fork_run
  fork_run-IsConsistent run_id req fresh =
      commit-IsConsistent p env l (fork_run_plan env scope run_id req l) c
        (fork_run_plan-Fits p env scope l c run_id req fresh)

  pub append_event-IsConsistent :
      HasRoom l
      → (run_id : Uuid) (req : AppendEventRequest)
      → IsConsistent p (append_event p env scope run_id req l).1
  unfolding append_event
  append_event-IsConsistent space run_id req =
      commit-IsConsistent p env l (append_event_plan p env scope run_id req l) c
        (append_event_plan-Fits p env scope l c space run_id req)

  pub create_checkpoint-IsConsistent :
      (run_id : Uuid) (req : CreateCheckpointRequest) (expected : Option ℤ)
      → IsConsistent p (create_checkpoint p env scope run_id req expected l).1
  unfolding create_checkpoint
  create_checkpoint-IsConsistent run_id req expected =
      commit-IsConsistent p env l (create_checkpoint_plan p env scope run_id req expected l) c
        (create_checkpoint_plan-Fits p env scope l c run_id req expected)

finish_retention-IsConsistent :
    (p : Platform) (report : RetentionReport) (r : Result (Unit {0}) × Ledger)
    → IsConsistent p r.1
    → IsConsistent p (finish_retention report r).1
unfolding finish_retention
finish_retention-IsConsistent p report (err e, l) c = c
finish_retention-IsConsistent p report (ok u, l) c = record { sound = c.sound; replays = c.replays }

IsConsistent-if :
    {A : Type 0} (p : Platform) (b : Bool) (x y : Result A × Ledger)
    → IsConsistent p x.1
    → IsConsistent p y.1
    → IsConsistent p (if b then x else y).1
IsConsistent-if p true x y cx cy = cx
IsConsistent-if p false x y cx cy = cy

pub apply_retention-IsConsistent :
    (p : Platform) (env : Env) (policy : RetentionPolicy) (l : Ledger)
    → IsConsistent p l
    → IsConsistent p (apply_retention env policy l).1
unfolding apply_retention
apply_retention-IsConsistent p env policy l c =
    IsConsistent-if p _ _ _ c
      (finish_retention-IsConsistent p _ _ (persist-IsConsistent p env _ l c tt))
