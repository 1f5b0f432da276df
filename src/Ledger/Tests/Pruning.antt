-- ===== src/Ledger/Tests/Pruning.antt =====
-- Retention passes over small ledgers, and a digest.
use calod.Prelude.{
  map, true, ℕ, ◌+◌, ◌<◌, ◌≡◌, refl, Option, none, some, List, [], ◌∷◌, str, arith, nat_eq,
  if◌then◌else◌, length,
}
use calod.Prelude.Int.{ℤ, pos, negsuc, two63}
use calod.Prelude.Map.{Map, get, insert}
use calod.Ledger.Json.{null}
use calod.Ledger.Digest.{digest_bytes, sha256_digest}
use calod.Ledger.Digest.RoundTrip.{digest_bytes-sha256_digest}
use calod.Ledger.Model.{
  Uuid, RunExport, ok, run_view, effect_view, event_view, EffectStatus, EffectTransition,
  EffectRecord, RunRecord, RunStatus, EventRecord, AcquireEffectRequest, UpdateEffectRequest,
  UpdateRunRequest, RetentionPolicy,
}
use calod.Ledger.Indexes.{Indexes, entries_of, last_hash, apply}
use calod.Ledger.Indexes.Sound.{timeline}
use calod.Ledger.State.{Ledger, new_ledger, persist, build_effect_event}
use calod.Ledger.Retention.{cutoff_of, run_is_old, apply_retention}
use calod.Ledger.Retention.Exact.{Prunes, retention_removes_exactly}
use calod.Ledger.Retention.Unknown.{unknown_effect_follows_run}
use calod.Ledger.Acquire.{acquire, new_effect}
use calod.Ledger.Transition.{transition}
use calod.Ledger.Runs.{create_run, update_run, new_run}
use calod.Ledger.Validate.{bad_length}
use calod.Ledger.Export.{export_run}
use calod.Ledger.Export.Evidence.{IsEvidence, export_run-IsEvidence}
use calod.Ledger.Calls.{acquires, transitions, updates_run, step}
use calod.Ledger.Consistency.Persist.{HasRoom}
use calod.Ledger.Consistency.Effects.{IsFresh}
use calod.Ledger.Consistency.Steps.{Reach, called, Reach-IsConsistent}
use calod.Ledger.Tests.Reached.{with_run-HasRoom, with_run-IsFresh, with_run-Reach}
use calod.Ledger.Tests.Data.{
  small_platform, checksum, position_0, env_at, scope_a, run_request, effect_request,
  commit_request, worker, with_run,
}

abbrev policy_0 : RetentionPolicy
policy_0 = record { max_age_ms = pos 0 }

abbrev run_effect_request : AcquireEffectRequest
run_effect_request = record effect_request { run_id = some 1 }

abbrev unknown_request : UpdateEffectRequest
unknown_request = record commit_request { transition = EffectTransition.mark_outcome_unknown }

-- A run, an effect of it, the loss of its outcome, and the end of the run.
abbrev with_effect : Ledger
with_effect =
    step small_platform (env_at 20 2) (acquires scope_a (str "key-0001") run_effect_request)
      with_run

abbrev with_unknown : Ledger
with_unknown =
    step small_platform (env_at 30 3) (transitions scope_a 2 unknown_request worker) with_effect

abbrev with_end : Ledger
with_end =
    step small_platform (env_at 40 4)
      (updates_run scope_a 1 (record { status = RunStatus.completed }) none) with_unknown

one_entry_small :
    (m : Map Uuid (List EventRecord)) (es : List EventRecord) (r : Uuid)
    → m ≡ (1, es) ∷ []
    → length es + 1 < two63
    → length (entries_of (get r m)) + 1 < two63
unfolding get entries_of
one_entry_small m es r one few = rw one (ground (arith, few))

one_run-HasRoom :
    (l : Ledger)
    → l.indexes.events ≡ (1, timeline 1 l.indexes) ∷ []
    → length (timeline 1 l.indexes) + 1 < two63
    → HasRoom l
one_run-HasRoom l one few = record {
  room = λ r. one_entry_small l.indexes.events (timeline 1 l.indexes) r one few;
}

with_effect-Reach : Reach small_platform with_effect
with_effect-Reach =
    called (env_at 20 2) (acquires scope_a (str "key-0001") run_effect_request) with_run-Reach
      with_run-HasRoom with_run-IsFresh

with_effect-HasRoom : HasRoom with_effect
unfolding new_ledger step create_run acquire persist apply bad_length get insert str new_run
    build_effect_event calod.Ledger.Validate.validate_effect_fields calod.Prelude.all
    calod.Prelude.any calod.Ledger.State.resolve_lease_ms calod.Ledger.Acquire.check_run
    calod.Prelude.str_eq calod.Ledger.Indexes.apply_event calod.Prelude.Int.add_i64
    calod.Ledger.Digest.genesis_hash last_hash
with_effect-HasRoom = one_run-HasRoom with_effect refl (ground arith)

with_effect-IsFresh : IsFresh (env_at 30 3) with_effect
unfolding new_ledger step create_run acquire persist apply bad_length get insert str new_run
    build_effect_event calod.Ledger.Validate.validate_effect_fields calod.Prelude.all
    calod.Prelude.any calod.Ledger.State.resolve_lease_ms calod.Ledger.Acquire.check_run
    calod.Prelude.str_eq calod.Ledger.Indexes.apply_event calod.Prelude.Int.add_i64
    calod.Ledger.Digest.genesis_hash last_hash
with_effect-IsFresh = record { no_effect = refl; no_run = refl }

with_unknown-Reach : Reach small_platform with_unknown
with_unknown-Reach =
    called (env_at 30 3) (transitions scope_a 2 unknown_request worker) with_effect-Reach
      with_effect-HasRoom with_effect-IsFresh

retention_removes_exactly_example :
    Prunes
      (cutoff_of (env_at 100 9) policy_0)
      with_unknown.indexes
      (apply_retention (env_at 100 9) policy_0 with_unknown).1.indexes
retention_removes_exactly_example =
    retention_removes_exactly small_platform (env_at 100 9) policy_0 with_unknown position_0
      (Reach-IsConsistent with_unknown-Reach) refl

digest_bytes-sha256_digest_example :
    digest_bytes (sha256_digest small_platform (str "abc"))
    ≡ some (small_platform.sha256 (str "abc"))
unfolding checksum calod.Prelude.all str
digest_bytes-sha256_digest_example = digest_bytes-sha256_digest small_platform (str "abc") refl refl

with_unknown-HasRoom : HasRoom with_unknown
unfolding new_ledger step create_run acquire transition calod.Ledger.State.effect_in_scope get
    calod.Ledger.Validate.validate_effect_fields str calod.Prelude.all calod.Prelude.any
    calod.Ledger.State.resolve_lease_ms persist apply calod.Ledger.Acquire.check_run insert new_run
    calod.Prelude.str_eq build_effect_event calod.Ledger.Indexes.apply_event
    calod.Prelude.Int.add_i64 calod.Ledger.Digest.genesis_hash last_hash
    calod.Ledger.Transition.check_transition calod.Ledger.Model.is_worker_transition
    calod.Prelude.opt_eq sha256_digest checksum calod.Ledger.Transition.next_effect
    calod.Ledger.Chain.compute_event_hash calod.Ledger.Json.canonical_json_into
    calod.Ledger.Model.event_view calod.Ledger.Timestamp.format_timestamp
    calod.Prelude.Text.decimal_ℤ
with_unknown-HasRoom = one_run-HasRoom with_unknown refl (ground arith)

with_unknown-IsFresh : IsFresh (env_at 40 4) with_unknown
unfolding new_ledger step create_run acquire transition get calod.Ledger.State.effect_in_scope
    calod.Ledger.Validate.validate_effect_fields str calod.Prelude.all calod.Prelude.any
    calod.Ledger.State.resolve_lease_ms persist apply calod.Ledger.Acquire.check_run insert new_run
    calod.Prelude.str_eq build_effect_event calod.Ledger.Indexes.apply_event
    calod.Prelude.Int.add_i64 calod.Ledger.Digest.genesis_hash last_hash
    calod.Ledger.Transition.check_transition calod.Ledger.Model.is_worker_transition
    calod.Prelude.opt_eq sha256_digest checksum calod.Ledger.Transition.next_effect
    calod.Ledger.Chain.compute_event_hash calod.Ledger.Json.canonical_json_into
    calod.Ledger.Model.event_view calod.Ledger.Timestamp.format_timestamp
    calod.Prelude.Text.decimal_ℤ
with_unknown-IsFresh = record { no_effect = refl; no_run = refl }

with_end-Reach : Reach small_platform with_end
with_end-Reach =
    called (env_at 40 4) (updates_run scope_a 1 (record { status = RunStatus.completed }) none)
      with_unknown-Reach with_unknown-HasRoom with_unknown-IsFresh

abbrev unknown_2 : EffectRecord
unknown_2 =
    record (new_effect small_platform (env_at 20 2) scope_a (str "key-0001") run_effect_request
      (pos 30000)) {
        state = EffectStatus.outcome_unknown;
        lease_expires_at_ms = none;
        lease_token_digest = none;
        updated_at_ms = pos 30;
      }

abbrev ended_1 : RunRecord
ended_1 = record (new_run (env_at 10 1) scope_a run_request) {
  status = RunStatus.completed;
  version = pos 2;
  last_event_sequence = pos 2;
  head_hash = last_hash (timeline 1 with_unknown.indexes);
  updated_at_ms = pos 40;
}

unknown_2_there : get 2 with_end.indexes.effects_by_id ≡ some unknown_2
unfolding new_ledger step create_run acquire transition update_run get
    calod.Ledger.State.run_in_scope calod.Ledger.State.effect_in_scope
    calod.Ledger.Validate.validate_effect_fields str calod.Prelude.all calod.Prelude.any
    calod.Ledger.State.resolve_lease_ms persist apply calod.Ledger.Acquire.check_run insert new_run
    calod.Prelude.str_eq build_effect_event calod.Ledger.Indexes.apply_event
    calod.Prelude.Int.add_i64 calod.Ledger.Digest.genesis_hash last_hash
    calod.Ledger.Transition.check_transition calod.Ledger.Model.is_worker_transition
    calod.Prelude.opt_eq sha256_digest checksum calod.Ledger.Transition.next_effect
    calod.Ledger.Chain.compute_event_hash calod.Ledger.Json.canonical_json_into
    calod.Ledger.Model.event_view calod.Ledger.Timestamp.format_timestamp
    calod.Prelude.Text.decimal_ℤ calod.Ledger.Runs.check_version calod.Ledger.Runs.check_status
    calod.Ledger.Model.is_terminal
unknown_2_there = refl

ended_1_there : get 1 with_end.indexes.runs ≡ some ended_1
unfolding new_ledger step create_run acquire transition update_run get
    calod.Ledger.State.run_in_scope calod.Ledger.State.effect_in_scope
    calod.Ledger.Validate.validate_effect_fields str calod.Prelude.all calod.Prelude.any
    calod.Ledger.State.resolve_lease_ms persist apply calod.Ledger.Acquire.check_run insert new_run
    calod.Prelude.str_eq build_effect_event calod.Ledger.Indexes.apply_event
    calod.Prelude.Int.add_i64 calod.Ledger.Digest.genesis_hash last_hash
    calod.Ledger.Transition.check_transition calod.Ledger.Model.is_worker_transition
    calod.Prelude.opt_eq sha256_digest checksum calod.Ledger.Transition.next_effect
    calod.Ledger.Chain.compute_event_hash calod.Ledger.Json.canonical_json_into
    calod.Ledger.Model.event_view calod.Ledger.Timestamp.format_timestamp
    calod.Prelude.Text.decimal_ℤ calod.Ledger.Runs.check_version calod.Ledger.Runs.check_status
    calod.Ledger.Model.is_terminal calod.Ledger.Runs.updated_run
ended_1_there = refl

unknown_effect_follows_run_example :
    get 2 (apply_retention (env_at 100 9) policy_0 with_end).1.indexes.effects_by_id
    ≡ (if run_is_old (cutoff_of (env_at 100 9) policy_0) ended_1 then none else some unknown_2)
unfolding new_effect
unknown_effect_follows_run_example =
    unknown_effect_follows_run small_platform (env_at 100 9) policy_0 with_end position_0 2 1
      unknown_2 ended_1 (Reach-IsConsistent with_end-Reach) refl unknown_2_there refl refl
      ended_1_there

-- The run is old, so the pass removes the effect.
ended_1_is_old : run_is_old (cutoff_of (env_at 100 9) policy_0) ended_1 ≡ true
unfolding run_is_old cutoff_of calod.Ledger.Model.is_terminal calod.Prelude.Int.saturating_sub_i64
ended_1_is_old = refl

abbrev evidence_1 : RunExport
evidence_1 = record {
  run =
      run_view (record (new_run (env_at 10 1) scope_a run_request) { last_event_sequence = pos 1 });
  effects =
      effect_view (
        new_effect small_platform (env_at 20 2) scope_a (str "key-0001") run_effect_request
          (pos 30000))
      ∷ [];
  events = map event_view (timeline 1 with_effect.indexes);
  checkpoints = [];
}

exports_1 : export_run scope_a 1 with_effect ≡ ok evidence_1
unfolding new_ledger step create_run acquire export_run calod.Ledger.State.run_in_scope get
    calod.Ledger.Validate.validate_effect_fields str calod.Prelude.all calod.Prelude.any
    calod.Ledger.State.resolve_lease_ms persist apply calod.Ledger.Acquire.check_run insert new_run
    calod.Prelude.str_eq build_effect_event calod.Ledger.Indexes.apply_event
    calod.Prelude.Int.add_i64 calod.Ledger.Digest.genesis_hash last_hash
    calod.Ledger.Chain.compute_event_hash calod.Prelude.keep sha256_digest calod.Prelude.Map.values
    checksum calod.Prelude.opt_eq calod.Ledger.Json.canonical_json_into event_view
    calod.Ledger.Timestamp.format_timestamp calod.Prelude.Text.decimal_ℤ run_view
exports_1 = refl

export_run-IsEvidence_example : IsEvidence small_platform scope_a 1 with_effect evidence_1
export_run-IsEvidence_example =
    export_run-IsEvidence small_platform scope_a 1 with_effect
      (Reach-IsConsistent with_effect-Reach) evidence_1 exports_1
