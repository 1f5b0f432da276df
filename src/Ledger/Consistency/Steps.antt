-- ===== src/Ledger/Consistency/Steps.antt =====
-- About the consistency of the ledgers that calls can reach.
use calod.Prelude.{◌≡◌, true, Option, none, nat_eq, ap}
use calod.Ledger.Json.{Platform}
use calod.Ledger.Model.{Uuid, Scope, RunRecord, RetentionPolicy, ok}
use calod.Ledger.Indexes.{replay, empty_indexes}
use calod.Ledger.State.{Env, Ledger, new_ledger, run_in_scope}
use calod.Ledger.Timeline.{verify_run_events}
use calod.Ledger.Calls.{
  Call, acquires, transitions, creates_run, updates_run, forks_run, appends_event,
  creates_checkpoint, applies_retention, step,
}
use calod.Ledger.Consistency.Persist.{IsConsistent, HasRoom, new_ledger-IsConsistent}
use calod.Ledger.Consistency.Effects.{IsFresh, acquire-IsConsistent}
use calod.Ledger.Consistency.Transitions.{transition-IsConsistent}
use calod.Ledger.Consistency.Runs.{
  create_run-IsConsistent, update_run-IsConsistent, fork_run-IsConsistent,
  append_event-IsConsistent, create_checkpoint-IsConsistent, apply_retention-IsConsistent,
}

-- A ledger that was opened on an empty directory and then called any number of times, with fresh
-- identifiers and with timelines that fit `i64`.
pub data Reach (p : Platform) : Ledger → Type 0 where
  opened : (retention : Option RetentionPolicy) → Reach p (new_ledger retention)
  called :
      {l : Ledger} (env : Env) (call : Call)
      → Reach p l
      → HasRoom l
      → IsFresh env l
      → Reach p (step p env call l)

pub step-IsConsistent :
    (p : Platform) (env : Env) (call : Call) (l : Ledger)
    → IsConsistent p l
    → HasRoom l
    → IsFresh env l
    → IsConsistent p (step p env call l)
unfolding step
step-IsConsistent p env (acquires scope key req) l c space fresh =
    acquire-IsConsistent p env scope key req l c space fresh
step-IsConsistent p env (transitions scope id req capabilities) l c space fresh =
    transition-IsConsistent p env scope id req capabilities l c space
step-IsConsistent p env (creates_run scope req) l c space fresh =
    create_run-IsConsistent p env scope l c req fresh
step-IsConsistent p env (updates_run scope id req expected) l c space fresh =
    update_run-IsConsistent p env scope l c id req expected
step-IsConsistent p env (forks_run scope id req) l c space fresh =
    fork_run-IsConsistent p env scope l c id req fresh
step-IsConsistent p env (appends_event scope id req) l c space fresh =
    append_event-IsConsistent p env scope l c space id req
step-IsConsistent p env (creates_checkpoint scope id req expected) l c space fresh =
    create_checkpoint-IsConsistent p env scope l c id req expected
step-IsConsistent p env (applies_retention policy) l c space fresh =
    apply_retention-IsConsistent p env policy l c

pub Reach-IsConsistent : {p : Platform} {l : Ledger} → Reach p l → IsConsistent p l
Reach-IsConsistent {p} (opened retention) = new_ledger-IsConsistent p retention
Reach-IsConsistent {p} (called {l} env call r space fresh) =
    step-IsConsistent p env call l (Reach-IsConsistent r) space fresh

-- In every reachable ledger, replaying the acknowledged log records on empty indexes succeeds and
-- gives the indexes.
pub log_replays :
    {p : Platform} {l : Ledger} → Reach p l → replay l.log empty_indexes ≡ (none, l.indexes)
log_replays r = (Reach-IsConsistent r).replays

-- In every reachable ledger, `verify_run_events` answers `true` for every run that the caller can
-- see.
pub timelines_verify :
    {p : Platform} {l : Ledger} (scope : Scope) (run_id : Uuid) (run : RunRecord)
    → Reach p l
    → run_in_scope scope run_id l ≡ ok run
    → verify_run_events p scope run_id l ≡ ok true
unfolding verify_run_events
timelines_verify scope run_id run r found =
    rw (found, verify_run_events) (ap ok ((Reach-IsConsistent r).sound.chains run_id))
