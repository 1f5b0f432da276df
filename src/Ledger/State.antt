-- ===== src/Ledger/State.antt =====
-- The ledger's state, and the internals that its operations share: calod/crates/calod-ledger/src/ledger.rs.
pub mod Acknowledged
use calod.Prelude.{
  ℕ, ◌+◌, ◌*◌, ◌/◌, ◌%◌, ◌^◌, ◌-◌, Option, none, some, List, [], ◌∷◌, ◌++◌, Str, str, str_eq, ◌&&◌,
  ◌||◌, if◌then◌else◌, ltb, nat_eq,
}
use calod.Prelude.Int.{ℤ, pos, two63, add_i64}
use calod.Prelude.Map.{get}
use calod.Ledger.Json.{Platform, Value, string, number, object, field, done}
use calod.Prelude.Text.{decimal_ℤ}
pub use calod.Wal.Format.{WalPosition}
use calod.Ledger.Model.{
  Uuid, Scope, schema_version_1, EffectRecord, RunRecord, EventRecord, EffectDecisionType,
  RetentionPolicy, PersistenceError, LedgerError, Field, Resource, Result, ok, err, event_view,
  ◌>>=◌,
}
use calod.Ledger.Chain.{compute_event_hash}
use calod.Ledger.Indexes.{Indexes, RecordKind, Applied, apply, empty_indexes}

-- What the log writer answers to an append.
pub data AppendOutcome : Type 0 where
  acknowledged : WalPosition → AppendOutcome
  failed : PersistenceError → AppendOutcome

-- What one call takes from outside: the time that it reads, the identifiers and the lease token
-- that it draws, and the answer of the log writer.
pub record Env : Type 0 where
  pub now : ℤ
  pub new_id : Uuid
  pub event_id : Uuid
  pub lease_token : Str
  pub append : AppendOutcome

-- The counters are `AtomicU64`, which wrap.
pub record LedgerCounters : Type 0 where
  pub acquires_execute : ℕ
  pub acquires_replay : ℕ
  pub acquires_wait : ℕ
  pub acquires_reconcile : ℕ
  pub transitions_total : ℕ
  pub retention_runs_removed : ℕ
  pub retention_effects_removed : ℕ

unfoldable pub bump : ℕ → ℕ → ℕ
bump n by = (n + by) % 2 ^ 64

unfoldable pub bump_acquire : EffectDecisionType → LedgerCounters → LedgerCounters
unfolding bump
bump_acquire EffectDecisionType.execute c = record c {
  acquires_execute = bump c.acquires_execute 1;
}
bump_acquire EffectDecisionType.replay c = record c { acquires_replay = bump c.acquires_replay 1 }
bump_acquire EffectDecisionType.wait c = record c { acquires_wait = bump c.acquires_wait 1 }
bump_acquire EffectDecisionType.reconcile c = record c {
  acquires_reconcile = bump c.acquires_reconcile 1;
}

-- A `Duration` is a number of nanoseconds.
abbrev pub from_secs : ℕ → ℕ
from_secs n = n * 1000000000

-- `log` holds the records that the log writer has acknowledged, oldest first.
pub record Ledger : Type 0 where
  pub indexes : Indexes
  pub log : List RecordKind
  pub last_wal_position : Option WalPosition
  pub default_lease : ℕ
  pub min_lease : ℕ
  pub max_lease : ℕ
  pub counters : LedgerCounters
  pub retention : Option RetentionPolicy

abbrev pub no_counts : LedgerCounters
no_counts = record {
  acquires_execute = 0;
  acquires_replay = 0;
  acquires_wait = 0;
  acquires_reconcile = 0;
  transitions_total = 0;
  retention_runs_removed = 0;
  retention_effects_removed = 0;
}

-- A ledger that is opened on an empty directory with the default configuration.
unfoldable pub new_ledger : Option RetentionPolicy → Ledger
new_ledger retention = record {
  indexes = empty_indexes;
  log = [];
  last_wal_position = none;
  default_lease = from_secs 30;
  min_lease = from_secs 5;
  max_lease = from_secs 3600;
  counters = no_counts;
  retention = retention;
}

-- The end of `persist`, after the acknowledgment.
unfoldable pub settle : WalPosition → Applied → Ledger → Result (Unit {0}) × Ledger
settle position (none, ix) l = (ok tt, record l { indexes = ix; last_wal_position = some position })
settle position (some e, ix) l = (err (LedgerError.persistence e), record l { indexes = ix })

unfoldable pub persist : Env → RecordKind → Ledger → Result (Unit {0}) × Ledger
unfolding settle
persist env kind l = elim env.append [
  | acknowledged position ↦
      settle position (apply kind l.indexes) (record l { log = l.log ++ kind ∷ [] })
  | failed e ↦ (err (LedgerError.persistence e), l)
]

-- `.filter(in scope).ok_or_else(NotFound)`
unfoldable pub run_if_in_scope : Scope → Uuid → Option RunRecord → Result RunRecord
run_if_in_scope scope run_id none = err (LedgerError.not_found Resource.run run_id)
run_if_in_scope scope run_id (some run) =
    if str_eq run.tenant_id scope.tenant_id && str_eq run.project_id scope.project_id
    then ok run
    else err (LedgerError.not_found Resource.run run_id)

unfoldable pub run_in_scope : Scope → Uuid → Ledger → Result RunRecord
unfolding run_if_in_scope
run_in_scope scope run_id l = run_if_in_scope scope run_id (get run_id l.indexes.runs)

unfoldable pub effect_if_in_scope : Scope → Uuid → Option EffectRecord → Result EffectRecord
effect_if_in_scope scope effect_id none = err (LedgerError.not_found Resource.effect effect_id)
effect_if_in_scope scope effect_id (some effect) =
    if str_eq effect.tenant_id scope.tenant_id && str_eq effect.project_id scope.project_id
    then ok effect
    else err (LedgerError.not_found Resource.effect effect_id)

unfoldable pub effect_in_scope : Scope → Uuid → Ledger → Result EffectRecord
unfolding effect_if_in_scope
effect_in_scope scope effect_id l =
    effect_if_in_scope scope effect_id (get effect_id l.indexes.effects_by_id)

-- `i64::try_from(duration.as_millis()).unwrap_or(i64::MAX)`
unfoldable pub as_millis : ℕ → ℤ
as_millis d = let ms = d / 1000000 in if ltb ms two63 then pos ms else pos (two63 - 1)

unfoldable pub lease_duration : Option ℕ → Ledger → ℕ
lease_duration none l = l.default_lease
lease_duration (some seconds) l = from_secs seconds

unfoldable pub resolve_lease_ms : Option ℕ → Ledger → Result ℤ
unfolding lease_duration as_millis
resolve_lease_ms seconds l =
    let duration = lease_duration seconds l in
    if ltb duration l.min_lease || ltb l.max_lease duration
    then err (LedgerError.validation Field.lease_duration_seconds)
    else ok (as_millis duration)

-- The next event of a run, before its hash is known.
unfoldable pub draft_event : Env → Scope → RunRecord → Str → ℤ → Value → EventRecord
draft_event env scope run event_type occurred_at_ms payload = record {
  schema_version = schema_version_1;
  tenant_id = scope.tenant_id;
  project_id = scope.project_id;
  id = env.event_id;
  run_id = run.id;
  sequence = add_i64 run.last_event_sequence (pos 1);
  event_type = event_type;
  occurred_at_ms = occurred_at_ms;
  recorded_at_ms = env.now;
  payload = payload;
  previous_hash = run.head_hash;
  hash = [];
}

-- The next event of a run.
unfoldable pub build_event : Platform → Env → Scope → RunRecord → Str → ℤ → Value → EventRecord
unfolding draft_event
build_event p env scope run event_type occurred_at_ms payload =
    let draft = draft_event env scope run event_type occurred_at_ms payload in
    record draft { hash = compute_event_hash p (event_view draft) }

-- The payload of an effect's event.
unfoldable pub effect_payload : Platform → EffectRecord → Value → Value
effect_payload p effect detail = object (
    field (str "effect_id") (string (p.uuid_hyphenated effect.id)) (
      field (str "scope") (string effect.scope) (
        field (str "idempotency_key") (string effect.idempotency_key) (
          field (str "tool_name") (string effect.tool_name) (
            field (str "fencing_token") (number (decimal_ℤ effect.fencing_token))
              (field (str "detail") detail done))))))

-- The event of an effect on its run's timeline; nothing if it has no run.
unfoldable pub build_effect_event :
    Platform → Env → Scope → EffectRecord → Str → Value → Ledger → Result (Option EventRecord)
unfolding run_in_scope build_event effect_payload
build_effect_event p env scope effect event_type detail l = elim effect.run_id [
  | none ↦ ok none
  | some run_id ↦ (do
    run ← run_in_scope scope run_id l
    ok (some (build_event p env scope run event_type env.now (effect_payload p effect detail))))
]
