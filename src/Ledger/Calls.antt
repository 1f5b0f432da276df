-- ===== src/Ledger/Calls.antt =====
-- The calls that change a ledger, and what can be reached by them. A call runs under the locks that
-- its code takes; calls that overlap between two of their steps are the subject of Ledger.Race.
use calod.Prelude.{Option, Str}
use calod.Prelude.Int.{ℤ}
use calod.Ledger.Json.{Platform}
use calod.Ledger.Model.{
  Uuid, Scope, AcquireEffectRequest, UpdateEffectRequest, CallerCapabilities, CreateRunRequest,
  UpdateRunRequest, ForkRunRequest, AppendEventRequest, CreateCheckpointRequest, RetentionPolicy,
}
use calod.Ledger.State.{Env, Ledger}
use calod.Ledger.Acquire.{acquire}
use calod.Ledger.Transition.{transition}
use calod.Ledger.Runs.{create_run, update_run, fork_run}
use calod.Ledger.Timeline.{append_event, create_checkpoint}
use calod.Ledger.Retention.{apply_retention}

-- The public operations of `Ledger` that write.
pub data Call : Type 0 where
  acquires : Scope → Str → AcquireEffectRequest → Call
  transitions : Scope → Uuid → UpdateEffectRequest → CallerCapabilities → Call
  creates_run : Scope → CreateRunRequest → Call
  updates_run : Scope → Uuid → UpdateRunRequest → Option ℤ → Call
  forks_run : Scope → Uuid → ForkRunRequest → Call
  appends_event : Scope → Uuid → AppendEventRequest → Call
  creates_checkpoint : Scope → Uuid → CreateCheckpointRequest → Option ℤ → Call
  applies_retention : RetentionPolicy → Call

unfoldable pub step : Platform → Env → Call → Ledger → Ledger
step p env (acquires scope key req) l = (acquire p env scope key req l).1
step p env (transitions scope id req capabilities) l =
    (transition p env scope id req capabilities l).1
step p env (creates_run scope req) l = (create_run env scope req l).1
step p env (updates_run scope id req expected) l = (update_run env scope id req expected l).1
step p env (forks_run scope id req) l = (fork_run env scope id req l).1
step p env (appends_event scope id req) l = (append_event p env scope id req l).1
step p env (creates_checkpoint scope id req expected) l =
    (create_checkpoint p env scope id req expected l).1
step p env (applies_retention policy) l = (apply_retention env policy l).1
