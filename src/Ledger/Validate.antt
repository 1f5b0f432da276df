-- ===== src/Ledger/Validate.antt =====
-- The checks on requests: calod/crates/calod-ledger/src/ledger.rs.
use calod.Prelude.{
  ℕ, Bool, Option, none, some, Str, str, ◌&&◌, ◌||◌, not, if◌then◌else◌, length, all, any, ltb, leb,
  nat_beq,
}
use calod.Ledger.Model.{LedgerError, Field, Result, ok, err}

-- `s.is_empty() || s.len() > max`
unfoldable pub bad_length : ℕ → Str → Bool
bad_length max s = nat_beq (length s) 0 || ltb max (length s)

unfoldable pub is_lower : ℕ → Bool
is_lower b = leb b'a' b && leb b b'z'

unfoldable pub is_upper : ℕ → Bool
is_upper b = leb b'A' b && leb b b'Z'

unfoldable pub is_digit : ℕ → Bool
is_digit b = leb b'0' b && leb b b'9'

unfoldable pub is_key_byte : ℕ → Bool
unfolding is_lower is_upper is_digit
is_key_byte b = is_lower b || (is_upper b || (is_digit b || any (nat_beq b) (str "._:-")))

unfoldable pub key_ok : Str → Bool
unfolding is_key_byte
key_ok key = (leb 8 (length key) && leb (length key) 255) && all is_key_byte key

unfoldable pub validate_effect_fields : Str → Str → Str → Result (Unit {0})
unfolding bad_length key_ok
validate_effect_fields scope key tool =
    if bad_length 500 scope
    then err (LedgerError.validation Field.scope)
    else if not (key_ok key)
    then err (LedgerError.validation Field.idempotency_key)
    else if bad_length 200 tool
    then err (LedgerError.validation Field.tool_name)
    else ok tt

unfoldable pub is_type_byte : ℕ → Bool
unfolding is_lower is_digit
is_type_byte b = is_lower b || (is_digit b || any (nat_beq b) (str "_.-"))

unfoldable pub validate_event_type : Str → Result (Unit {0})
unfolding bad_length is_type_byte
validate_event_type event_type =
    if not (bad_length 200 event_type) && all is_type_byte event_type
    then ok tt
    else err (LedgerError.validation Field.event_type)

unfoldable pub limit_or_50 : Option ℕ → ℕ
limit_or_50 none = 50
limit_or_50 (some n) = n

unfoldable pub resolve_limit : Option ℕ → Result ℕ
unfolding limit_or_50
resolve_limit limit =
    let n = limit_or_50 limit in
    if leb 1 n && leb n 100 then ok n else err (LedgerError.validation Field.limit)
