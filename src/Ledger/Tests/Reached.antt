-- ===== src/Ledger/Tests/Reached.antt =====
-- The calls that lead to the small ledgers of the tests.
use calod.Prelude.{ℕ, ◌≡◌, refl, true, Option, none, some, [], str, arith, nat_eq, ◌⊎◌}
use calod.Prelude.Int.{add_i64}
use calod.Prelude.Map.{get, insert}
use calod.Ledger.Model.{ok}
use calod.Ledger.Indexes.{
  Indexes, replay, empty_indexes, entries_of, apply, key_eq, key_beq, effect_key_of,
}
use calod.Ledger.State.{
  Ledger, new_ledger, persist, run_in_scope, build_event, build_effect_event, effect_payload,
  resolve_lease_ms, as_millis,
}
use calod.Ledger.Acquire.{
  acquire, acquire_key, find_effect, new_effect, reacquire, wait_decision, read_decision,
  persist_effect, finish_plan,
}
use calod.Ledger.Timeline.{append_event}
use calod.Ledger.Runs.{create_run, new_run}
use calod.Ledger.Validate.{bad_length, validate_effect_fields, validate_event_type}
use calod.Ledger.Calls.{acquires, transitions, creates_run, appends_event, step}
use calod.Ledger.Consistency.Persist.{HasRoom}
use calod.Ledger.Consistency.Effects.{IsFresh}
use calod.Ledger.Consistency.Steps.{Reach, opened, called}
use calod.Ledger.Tests.Data.{
  small_platform, env_at, scope_a, run_request, event_request, effect_request, commit_request,
  worker, with_run, with_event, with_claim, with_commit, run_1,
}

pub no_events-HasRoom : (l : Ledger) → l.indexes.events ≡ [] → HasRoom l
unfolding get entries_of
no_events-HasRoom l none_yet = record { room = λ r. rw none_yet (ground arith) }

pub new_ledger-Reach : Reach small_platform (new_ledger none)
new_ledger-Reach = opened none

pub new_ledger-HasRoom : HasRoom (new_ledger none)
unfolding new_ledger
new_ledger-HasRoom = no_events-HasRoom (new_ledger none) refl

pub new_ledger-IsFresh : IsFresh (env_at 10 1) (new_ledger none)
unfolding new_ledger get
new_ledger-IsFresh = record { no_effect = refl; no_run = refl }

pub with_run-HasRoom : HasRoom with_run
unfolding new_ledger step create_run persist apply bad_length str
with_run-HasRoom = no_events-HasRoom with_run refl

pub with_run-IsFresh : IsFresh (env_at 20 2) with_run
unfolding new_ledger step create_run persist apply bad_length get insert str new_run
with_run-IsFresh = record { no_effect = refl; no_run = refl }

pub with_run-Reach : Reach small_platform with_run
with_run-Reach =
    called (env_at 10 1) (creates_run scope_a run_request) new_ledger-Reach new_ledger-HasRoom
      new_ledger-IsFresh

pub with_event-Reach : Reach small_platform with_event
with_event-Reach =
    called (env_at 20 2) (appends_event scope_a 1 event_request)
      (called (env_at 10 1) (creates_run scope_a run_request) new_ledger-Reach new_ledger-HasRoom
        new_ledger-IsFresh)
      with_run-HasRoom with_run-IsFresh

pub with_event-run : run_in_scope scope_a 1 with_event ≡ ok run_1
unfolding new_ledger step create_run append_event persist apply bad_length get insert str new_run
    run_in_scope validate_event_type calod.Prelude.all calod.Prelude.str_eq
    calod.Ledger.Indexes.apply_event build_event add_i64 calod.Ledger.Digest.genesis_hash
    calod.Ledger.Indexes.last_hash
with_event-run = refl

pub with_claim-HasRoom : HasRoom with_claim
unfolding new_ledger step acquire validate_effect_fields str calod.Prelude.all calod.Prelude.any
    resolve_lease_ms get calod.Ledger.Acquire.check_run calod.Ledger.State.build_effect_event
    persist apply
with_claim-HasRoom = no_events-HasRoom with_claim refl

pub with_claim-IsFresh : IsFresh (env_at 20 2) with_claim
unfolding new_ledger step acquire get validate_effect_fields str calod.Prelude.all calod.Prelude.any
    resolve_lease_ms calod.Ledger.Acquire.check_run calod.Ledger.State.build_effect_event persist
    apply insert
with_claim-IsFresh = record { no_effect = refl; no_run = refl }

pub with_claim-Reach : Reach small_platform with_claim
with_claim-Reach =
    called (env_at 10 1) (acquires scope_a (str "key-0001") effect_request) new_ledger-Reach
      new_ledger-HasRoom new_ledger-IsFresh

pub with_commit-Reach : Reach small_platform with_commit
with_commit-Reach =
    called (env_at 20 2) (transitions scope_a 1 commit_request worker) with_claim-Reach
      with_claim-HasRoom with_claim-IsFresh
