-- ===== src/Ledger/Digest.antt =====
-- Hexadecimal and SHA-256 digests: calod/crates/calod-ledger/src/digest.rs.
pub mod RoundTrip
use calod.Prelude.{
  ℕ, ◌+◌, ◌-◌, ◌*◌, ◌/◌, ◌%◌, Option, none, some, List, [], ◌∷◌, ◌++◌, Str, str, nat_beq, leb,
  if◌then◌else◌, length, get_or, ◌&&◌,
}
use calod.Ledger.Json.{Platform, Value, canonical_json}

-- The lines `out.push(HEX[..] as char)`, over all bytes.
unfoldable pub hex_encode : List ℕ → Str
hex_encode [] = []
hex_encode (byte ∷ rest) =
    get_or (str "0123456789abcdef") (byte / 16) 0
    ∷ get_or (str "0123456789abcdef") (byte % 16) 0
    ∷ hex_encode rest

-- `char::to_digit(16)`
unfoldable pub to_digit16 : ℕ → Option ℕ
to_digit16 c =
    if leb 48 c && leb c 57
    then some (c - 48)
    else if leb 97 c && leb c 102
    then some (c - 87)
    else if leb 65 c && leb c 70
    then some (c - 55)
    else none

infixl 5 ◌>>=◌
abbrev pub ◌>>=◌ {ℓ κ} : {A : Type ℓ} {B : Type κ} → Option A → (A → Option B) → Option B
none >>= f = none
some a >>= f = f a

-- The loop over the chunks of two characters.
unfoldable pub hex_pairs : Str → Option (List ℕ)
unfolding to_digit16
hex_pairs [] = some []
hex_pairs (c ∷ []) = some []
hex_pairs (c ∷ d ∷ rest) =
    let tail = hex_pairs rest in
    do hi ← to_digit16 c; lo ← to_digit16 d; bytes ← tail; some ((hi * 16 + lo) % 256 ∷ bytes)

unfoldable pub hex_decode_32 : Str → Option (List ℕ)
unfolding hex_pairs
hex_decode_32 hex = if nat_beq (length hex) 64 then hex_pairs hex else none

-- `str::strip_prefix`
unfoldable pub strip_prefix : Str → Str → Option Str
strip_prefix [] s = some s
strip_prefix (x ∷ xs) [] = none
strip_prefix (x ∷ xs) (c ∷ s) = let rest = strip_prefix xs s in if nat_beq x c then rest else none

unfoldable pub digest_bytes : Str → Option (List ℕ)
unfolding hex_decode_32 strip_prefix
digest_bytes rendered = do hex ← strip_prefix (str "sha256:") rendered; hex_decode_32 hex

unfoldable pub genesis_hash : Str
genesis_hash = str "sha256:e3b0c44298fc1c149afbf4c8996fb92427ae41e4649b934ca495991b7852b855"

unfoldable pub sha256_digest : Platform → Str → Str
unfolding hex_encode
sha256_digest p bytes = str "sha256:" ++ hex_encode (p.sha256 bytes)

unfoldable pub input_digest : Platform → Value → Str
unfolding sha256_digest canonical_json
input_digest p input = sha256_digest p (canonical_json p input)
