-- ===== src/Ledger/Tests/Claims.antt =====
-- Runs of the ledger on small inputs.
use calod.Prelude.{ℕ, ◌≡◌, refl, true, Option, none, some, [], str, arith, nat_eq, ◌⊎◌}
use calod.Prelude.Int.{ℤ, pos, add_i64}
use calod.Prelude.Map.{get, insert}
use calod.Ledger.Json.{null}
use calod.Ledger.Model.{
  EffectDecisionType, EffectStatus, EffectRecord, EventRecord, Result, ok, effect_view,
  is_retention_terminal,
}
use calod.Ledger.Indexes.{replay, empty_indexes, apply, key_eq, key_beq, effect_key_of}
use calod.Ledger.State.{
  Ledger, new_ledger, persist, run_in_scope, build_event, build_effect_event, effect_payload,
  resolve_lease_ms, as_millis,
}
use calod.Ledger.Acquire.{
  acquire, acquire_key, find_effect, new_effect, reacquire, wait_decision, read_decision,
  persist_effect, finish_plan,
}
use calod.Ledger.Transition.{transition, next_effect, check_transition}
use calod.Ledger.Timeline.{verify_run_events}
use calod.Ledger.Runs.{create_run, new_run}
use calod.Ledger.Validate.{bad_length, validate_effect_fields}
use calod.Ledger.Calls.{creates_run, step}
use calod.Ledger.Consistency.Persist.{HasRoom}
use calod.Ledger.Consistency.Effects.{IsFresh}
use calod.Ledger.Consistency.Steps.{Reach-IsConsistent, log_replays, timelines_verify}
use calod.Ledger.Lifecycle.Plans.{Matches}
use calod.Ledger.Lifecycle.Decisions.{acquire_decides, expected}
use calod.Ledger.Lifecycle.Grants.{acquire_grants, Granted}
use calod.Ledger.Lifecycle.Moves.{transition_moves, Moved}
use calod.Ledger.Lifecycle.Final.{IsFinal}
use calod.Ledger.Lifecycle.Final.Replays.{Later, now, after, Later-IsFinal, final_replays}
use calod.Ledger.Race.{SecondLost, second_event_lost}
use calod.Ledger.Tests.Reached.{
  no_events-HasRoom, with_run-HasRoom, with_run-Reach, with_event-Reach, with_event-run,
  with_claim-Reach, with_commit-Reach,
}
use calod.Ledger.Tests.Data.{
  position_0, small_platform, checksum, env_at, scope_a, run_request, effect_request,
  commit_request, worker, with_run, with_event, with_claim, with_commit, run_1, claimed_1,
  committed_1, granted,
}

log_replays_example : replay with_event.log empty_indexes ≡ (none, with_event.indexes)
log_replays_example = log_replays with_event-Reach

timelines_verify_example : verify_run_events small_platform scope_a 1 with_event ≡ ok true
timelines_verify_example = timelines_verify scope_a 1 run_1 with_event-Reach with_event-run

waits :
    (acquire small_platform (env_at 15 3) scope_a (str "key-0001") effect_request with_claim).0
    ≡ ok (wait_decision claimed_1 (pos 30010) (pos 15))
unfolding new_ledger step acquire validate_effect_fields str calod.Prelude.all calod.Prelude.any
    resolve_lease_ms get calod.Ledger.Acquire.check_run calod.Ledger.State.build_effect_event
    persist apply insert key_beq calod.Prelude.str_eq effect_key_of calod.Ledger.Digest.input_digest
    checksum calod.Prelude.Int.add_i64
waits = refl

acquire_decides_example :
    EffectDecisionType.wait
    ≡ expected
        (env_at 15 3)
        (find_effect (acquire_key scope_a (str "key-0001") effect_request) with_claim.indexes)
unfolding wait_decision
acquire_decides_example =
    acquire_decides small_platform (env_at 15 3) scope_a (str "key-0001") effect_request with_claim
      (wait_decision claimed_1 (pos 30010) (pos 15)) waits

executes_again :
    (acquire small_platform (env_at 40000 3) scope_a (str "key-0001") effect_request with_claim).0
    ≡ ok
        (granted (reacquire small_platform (env_at 40000 3) effect_request (pos 30000) claimed_1).0)
unfolding new_ledger step acquire validate_effect_fields str calod.Prelude.all calod.Prelude.any
    resolve_lease_ms get calod.Ledger.Acquire.check_run calod.Ledger.State.build_effect_event
    persist apply insert key_beq calod.Prelude.str_eq effect_key_of calod.Ledger.Digest.input_digest
    checksum calod.Prelude.Int.add_i64
executes_again = refl

acquire_grants_example :
    Granted small_platform
      (env_at 40000 3)
      (find_effect (acquire_key scope_a (str "key-0001") effect_request) with_claim.indexes)
      (granted (reacquire small_platform (env_at 40000 3) effect_request (pos 30000) claimed_1).0)
      (acquire small_platform
        (env_at 40000 3)
        scope_a
        (str "key-0001")
        effect_request
        with_claim).1.indexes
acquire_grants_example =
    acquire_grants small_platform (env_at 40000 3) scope_a (str "key-0001") effect_request
      with_claim
      (granted (reacquire small_platform (env_at 40000 3) effect_request (pos 30000) claimed_1).0)
      executes_again refl

commits_1 :
    (transition small_platform (env_at 20 2) scope_a 1 commit_request worker with_claim).0
    ≡ ok (effect_view committed_1)
unfolding new_ledger step acquire transition calod.Ledger.State.effect_in_scope get
    validate_effect_fields str calod.Prelude.all calod.Prelude.any resolve_lease_ms
    calod.Ledger.Acquire.check_run calod.Ledger.State.build_effect_event persist apply insert
    calod.Prelude.str_eq check_transition calod.Ledger.Model.is_worker_transition
    calod.Prelude.opt_eq calod.Ledger.Digest.sha256_digest checksum next_effect
commits_1 = refl

transition_moves_example :
    Moved small_platform scope_a 1 commit_request worker with_claim.indexes
      (effect_view committed_1)
      (transition small_platform (env_at 20 2) scope_a 1 commit_request worker with_claim).1.indexes
transition_moves_example =
    transition_moves small_platform (env_at 20 2) scope_a 1 commit_request worker with_claim
      (Reach-IsConsistent with_claim-Reach).sound (effect_view committed_1) commits_1

with_commit-HasRoom : HasRoom with_commit
unfolding new_ledger step acquire transition calod.Ledger.State.effect_in_scope get
    validate_effect_fields str calod.Prelude.all calod.Prelude.any resolve_lease_ms
    calod.Ledger.Acquire.check_run calod.Ledger.State.build_effect_event persist apply insert
    calod.Prelude.str_eq check_transition calod.Ledger.Model.is_worker_transition
    calod.Prelude.opt_eq calod.Ledger.Digest.sha256_digest checksum next_effect
with_commit-HasRoom = no_events-HasRoom with_commit refl

with_commit-IsFresh : IsFresh (env_at 30 5) with_commit
unfolding new_ledger step acquire transition get calod.Ledger.State.effect_in_scope
    validate_effect_fields str calod.Prelude.all calod.Prelude.any resolve_lease_ms
    calod.Ledger.Acquire.check_run calod.Ledger.State.build_effect_event persist apply insert
    calod.Prelude.str_eq check_transition calod.Ledger.Model.is_worker_transition
    calod.Prelude.opt_eq calod.Ledger.Digest.sha256_digest checksum next_effect
with_commit-IsFresh = record { no_effect = refl; no_run = refl }

with_commit-IsFinal :
    IsFinal (acquire_key scope_a (str "key-0001") effect_request) committed_1 with_commit.indexes
unfolding new_ledger step acquire transition get calod.Ledger.State.effect_in_scope
    validate_effect_fields str calod.Prelude.all calod.Prelude.any resolve_lease_ms
    calod.Ledger.Acquire.check_run calod.Ledger.State.build_effect_event persist apply insert
    calod.Prelude.str_eq check_transition calod.Ledger.Model.is_worker_transition
    calod.Prelude.opt_eq calod.Ledger.Digest.sha256_digest checksum next_effect key_beq
    effect_key_of is_retention_terminal
with_commit-IsFinal = record { there = refl; named = refl; final = refl }

with_commit-Later :
    Later small_platform with_commit
      (step small_platform (env_at 30 5) (creates_run scope_a run_request) with_commit)
with_commit-Later =
    after (env_at 30 5) (creates_run scope_a run_request) now with_commit-HasRoom
      with_commit-IsFresh refl

Later-IsFinal_example :
    IsFinal
      (acquire_key scope_a (str "key-0001") effect_request)
      committed_1
      (step small_platform (env_at 30 5) (creates_run scope_a run_request) with_commit).indexes
Later-IsFinal_example =
    Later-IsFinal (acquire_key scope_a (str "key-0001") effect_request) committed_1
      with_commit-Reach with_commit-IsFinal with_commit-Later

committed_1-Matches : Matches small_platform effect_request committed_1
unfolding new_effect
committed_1-Matches = record { digest = refl; tool = refl }

effect_request_valid :
    validate_effect_fields effect_request.scope (str "key-0001") effect_request.tool_name ≡ ok tt
unfolding validate_effect_fields str calod.Prelude.all calod.Prelude.any
effect_request_valid = refl

effect_request_lease :
    resolve_lease_ms effect_request.lease_duration_seconds
      (step small_platform (env_at 30 5) (creates_run scope_a run_request) with_commit)
    ≡ ok (pos 30000)
unfolding resolve_lease_ms step create_run transition acquire new_ledger bad_length str persist
    apply calod.Ledger.State.effect_in_scope get validate_effect_fields calod.Prelude.all
    calod.Prelude.any calod.Ledger.Acquire.check_run calod.Ledger.State.build_effect_event insert
    calod.Prelude.str_eq check_transition calod.Ledger.Model.is_worker_transition
    calod.Prelude.opt_eq calod.Ledger.Digest.sha256_digest checksum next_effect
effect_request_lease = refl

final_replays_example :
    (acquire small_platform
      (env_at 50000 6)
      scope_a
      (str "key-0001")
      effect_request
      (step small_platform (env_at 30 5) (creates_run scope_a run_request) with_commit)).0
    ≡ ok (read_decision EffectDecisionType.replay committed_1)
final_replays_example =
    final_replays small_platform (env_at 50000 6) scope_a (str "key-0001") effect_request
      (pos 30000) committed_1 with_commit _ with_commit-Reach with_commit-IsFinal with_commit-Later
      committed_1-Matches effect_request_valid effect_request_lease

-- Two effects of run 1, whose events were both built from `with_run`.
abbrev race_effect : ℕ → EffectRecord
race_effect id = record claimed_1 { id = id; run_id = some 1 }

abbrev race_event : ℕ → EventRecord
race_event id =
    build_event small_platform (env_at 20 id) scope_a (new_run (env_at 10 1) scope_a run_request)
      (str "effect.acquired") (pos 20) (effect_payload small_platform (race_effect id) null)

race_event_2 :
    build_effect_event small_platform
      (env_at 20 2)
      scope_a
      (race_effect 2)
      (str "effect.acquired")
      null
      with_run
    ≡ ok (some (race_event 2))
unfolding new_ledger step create_run persist apply bad_length get insert str new_run
    build_effect_event calod.Prelude.str_eq
race_event_2 = refl

race_event_3 :
    build_effect_event small_platform
      (env_at 20 3)
      scope_a
      (race_effect 3)
      (str "effect.acquired")
      null
      with_run
    ≡ ok (some (race_event 3))
unfolding new_ledger step create_run persist apply bad_length get insert str new_run
    build_effect_event calod.Prelude.str_eq
race_event_3 = refl

second_event_lost_example : SecondLost with_run (race_effect 3) (race_event 2) (
    persist_effect
      (env_at 20 3)
      (race_effect 3)
      (ok (some (race_event 3)))
      (persist_effect (env_at 20 2) (race_effect 2) (ok (some (race_event 2))) with_run).1)
second_event_lost_example =
    second_event_lost small_platform (env_at 20 2) (env_at 20 3) scope_a scope_a (race_effect 2)
      (race_effect 3) (str "effect.acquired") (str "effect.acquired") null null (race_event 2)
      (race_event 3) position_0 position_0 with_run (Reach-IsConsistent with_run-Reach)
      with_run-HasRoom race_event_2 race_event_3 refl refl refl
