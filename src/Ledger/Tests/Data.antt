-- ===== src/Ledger/Tests/Data.antt =====
-- A small platform, requests and ledgers for the tests.
use calod.Prelude.{ℕ, ◌+◌, ◌%◌, false, none, some, List, [], ◌∷◌, ◌++◌, Str, str, replicate}
use calod.Prelude.Int.{pos}
use calod.Ledger.Json.{Platform, null}
use calod.Ledger.Model.{
  Scope, EffectTransition, AcquireEffectRequest, UpdateEffectRequest, CallerCapabilities,
  CreateRunRequest, AppendEventRequest, RunRecord, EffectRecord, EffectStatus, EffectDecision,
  EffectDecisionType, effect_view,
}
use calod.Ledger.State.{Env, Ledger, WalPosition, acknowledged, new_ledger, build_event}
use calod.Ledger.Acquire.{new_effect}
use calod.Ledger.Runs.{new_run}
use calod.Ledger.Calls.{acquires, transitions, creates_run, appends_event, step}

unfoldable pub sum : List ℕ → ℕ
sum [] = 0
sum (n ∷ ns) = n + sum ns

-- A checksum of 32 bytes in place of SHA-256.
unfoldable pub checksum : Str → List ℕ
unfolding sum
checksum bytes = sum bytes % 256 ∷ replicate 31 0

abbrev pub small_platform : Platform
small_platform = record {
  sha256 = checksum;
  json_string = λ s. 34 ∷ s ++ 34 ∷ [];
  uuid_hyphenated = λ id. id ∷ [];
}

abbrev pub position_0 : WalPosition
position_0 = record { segment_id = 0; offset = 0 }

abbrev pub env_at : ℕ → ℕ → Env
env_at now id = record {
  now = pos now;
  new_id = id;
  event_id = id + 100;
  lease_token = str "token";
  append = acknowledged position_0;
}

abbrev pub scope_a : Scope
scope_a = record { tenant_id = str "t"; project_id = str "p" }

abbrev pub run_request : CreateRunRequest
run_request = record { external_id = str "r"; agent_name = str "a"; metadata = none }

abbrev pub event_request : AppendEventRequest
event_request = record { event_type = str "note"; occurred_at_ms = pos 5; payload = null }

abbrev pub effect_request : AcquireEffectRequest
effect_request = record {
  run_id = none;
  scope = str "mail";
  tool_name = str "send";
  input = null;
  lease_duration_seconds = none;
  downstream_idempotency_supported = false;
}

abbrev pub commit_request : UpdateEffectRequest
commit_request = record {
  transition = EffectTransition.commit;
  lease_token = some (str "token");
  fencing_token = pos 1;
  lease_duration_seconds = none;
  result = some null;
  external_receipt = none;
  failure = none;
}

abbrev pub worker : CallerCapabilities
worker = record { can_reconcile = false; can_admin = false }

-- A ledger with one run, then with one event on its timeline.
abbrev pub with_run : Ledger
with_run = step small_platform (env_at 10 1) (creates_run scope_a run_request) (new_ledger none)

abbrev pub with_event : Ledger
with_event = step small_platform (env_at 20 2) (appends_event scope_a 1 event_request) with_run

-- A ledger with one claimed effect, then with the effect committed.
abbrev pub with_claim : Ledger
with_claim =
    step small_platform (env_at 10 1) (acquires scope_a (str "key-0001") effect_request)
      (new_ledger none)

abbrev pub with_commit : Ledger
with_commit =
    step small_platform (env_at 20 2) (transitions scope_a 1 commit_request worker) with_claim

-- The run of `with_event`, with the head that its event left.
abbrev pub run_1 : RunRecord
run_1 = record (new_run (env_at 10 1) scope_a run_request) {
  last_event_sequence = pos 1;
  head_hash =
      (build_event small_platform (env_at 20 2) scope_a (new_run (env_at 10 1) scope_a run_request)
        (str "note") (pos 5) null).hash;
}

-- The effect of `with_claim`, then that of `with_commit`.
abbrev pub claimed_1 : EffectRecord
claimed_1 =
    new_effect small_platform (env_at 10 1) scope_a (str "key-0001") effect_request (pos 30000)

abbrev pub committed_1 : EffectRecord
committed_1 = record claimed_1 {
  state = EffectStatus.committed;
  result = some null;
  lease_expires_at_ms = none;
  lease_token_digest = none;
  updated_at_ms = pos 20;
}

-- The answer of an acquire that may execute.
abbrev pub granted : EffectRecord → EffectDecision
granted effect = record {
  decision = EffectDecisionType.execute;
  effect = effect_view effect;
  lease_token = some (str "token");
  poll_after_ms = none;
}
