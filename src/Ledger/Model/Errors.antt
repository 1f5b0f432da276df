-- ===== src/Ledger/Model/Errors.antt =====
-- Errors: calod/crates/calod-ledger/src/error.rs, and `PersistenceError` of
-- calod/crates/calod-core/src/store/error.rs. The texts of the errors are not kept.
use calod.Prelude.{ℕ, ◌≡◌, refl, Str}
use calod.Prelude.Int.{ℤ}

pub data PersistenceError : Type 0 where
  io serialization corruption permission_denied : PersistenceError
  directory_not_writable snapshot_creation_failed wal_write_failed load_failed : PersistenceError

-- The fields that a `Validation` or `NotFound` error can name.
pub data Field : Type 0 where
  scope idempotency_key tool_name lease_duration_seconds lease_token external_id : Field
  agent_name reason from_event_sequence event_type limit cursor event_sequence : Field

pub data Resource : Type 0 where
  effect run checkpoint : Resource

pub data LedgerError : Type 0 where
  not_found : Resource → ℕ → LedgerError
  idempotency_conflict : Str → Str → Str → Str → LedgerError
  stale_fencing_token : ℤ → ℤ → LedgerError
  forbidden : LedgerError
  invalid_transition : Str → Str → LedgerError
  validation : Field → LedgerError
  precondition_failed : ℤ → ℤ → LedgerError
  persistence : PersistenceError → LedgerError

unfoldable pub status_code : LedgerError → ℕ
status_code (LedgerError.not_found r i) = 404
status_code (LedgerError.idempotency_conflict s k e r) = 409
status_code (LedgerError.stale_fencing_token c g) = 409
status_code LedgerError.forbidden = 403
status_code (LedgerError.invalid_transition f t) = 422
status_code (LedgerError.validation f) = 400
status_code (LedgerError.precondition_failed e c) = 412
status_code (LedgerError.persistence e) = 503

-- `Result<T>`.
pub data Result {ℓ} (A : Type ℓ) : Type ℓ where
  ok : A → Result A
  err : LedgerError → Result A

-- `?`: the first error ends the chain.
infixl 5 ◌>>◌ ◌>>=◌
abbrev pub ◌>>=◌ {κ ℓ} : {T : Type κ} {U : Type ℓ} → Result T → (T → Result U) → Result U
err failure >>= next = err failure
ok value >>= next = next value

abbrev pub ◌>>◌ {κ} : {T : Type κ} → Result (Unit {0}) → Result T → Result T
check >> next = check >>= λ _. next

-- The value of a chain that succeeds comes from the value of its first step.
pub >>=-eq-ok {κ ℓ} :
    {T : Type κ} {U : Type ℓ} (r : Result T) (next : T → Result U) {b : U}
    → (r >>= next) ≡ ok b
    → (value : T) × (r ≡ ok value) × (next value ≡ ok b)
>>=-eq-ok (err failure) next h = cc
>>=-eq-ok (ok value) next h = (value, refl, h)
