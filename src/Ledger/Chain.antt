-- ===== src/Ledger/Chain.antt =====
-- The hash chain of a run's events: calod/crates/calod-ledger/src/model.rs.
pub mod Extend
use calod.Prelude.{
  ℕ, suc, ◌+◌, Bool, true, false, Option, none, some, List, [], ◌∷◌, ◌++◌, Str, str, str_eq,
  if◌then◌else◌, replicate, not, ◌&&◌,
}
use calod.Prelude.Int.{ℤ, pos, eq_ℤ}
use calod.Prelude.Text.{decimal_ℤ}
use calod.Ledger.Json.{
  Platform, Value, Fields, done, field, string, number, object, canonical_json_into,
}
use calod.Ledger.Digest.{genesis_hash, digest_bytes, sha256_digest}
use calod.Ledger.Model.{Event}

-- The fields that a hash covers: all of the view but the two hashes.
unfoldable pub hash_input : Platform → Event → Value
hash_input p e = object (
    field (str "id") (string (p.uuid_hyphenated e.id)) (
      field (str "run_id") (string (p.uuid_hyphenated e.run_id)) (
        field (str "sequence") (number (decimal_ℤ e.sequence)) (
          field (str "type") (string e.event_type) (
            field (str "occurred_at") (string e.occurred_at) (
              field (str "recorded_at") (string e.recorded_at)
                (field (str "payload") e.payload done)))))))

-- `digest_bytes(&event.previous_hash).unwrap_or([0u8; 32])`
unfoldable pub previous_bytes : Option (List ℕ) → List ℕ
previous_bytes none = replicate 32 0
previous_bytes (some bytes) = bytes

unfoldable pub compute_event_hash : Platform → Event → Str
unfolding hash_input previous_bytes digest_bytes
compute_event_hash p e =
    sha256_digest p
      (canonical_json_into p (hash_input p e) (previous_bytes (digest_bytes e.previous_hash)))

-- The loop of `verify_event_chain` at position `index`.
unfoldable pub verify_from : Platform → ℕ → Str → List Event → Bool
verify_from p index expected_previous [] = true
verify_from p index expected_previous (e ∷ es) =
    let rest = verify_from p (index + 1) e.hash es in
    if not (eq_ℤ e.sequence (pos (index + 1)))
    then false
    else if not (str_eq e.previous_hash expected_previous)
    then false
    else if not (str_eq e.hash (compute_event_hash p e))
    then false
    else rest

unfoldable pub verify_event_chain : Platform → List Event → Bool
unfolding verify_from
verify_event_chain p events = verify_from p 0 genesis_hash events
