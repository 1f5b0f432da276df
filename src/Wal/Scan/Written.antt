-- ===== src/Wal/Scan/Written.antt =====
-- What a segment holds after entries were written one after another.
use calod.Prelude.{ℕ, ◌+◌, ◌-◌, ◌^◌, ◌<◌, List, [], ◌∷◌, ◌++◌, ltb, if◌then◌else◌, length}
use calod.Wal.Format.{Bytes, Crc32c, RecordType, encode_record, header_len}
use calod.Wal.Scan.{Found}

-- A record as the caller gives it.
pub record Entry : Type 0 where
  pub record_type : RecordType
  pub payload : Bytes

abbrev pub encode_entry : Crc32c → Entry → Bytes
encode_entry c e = encode_record c e.record_type e.payload

-- What a segment holds after the entries were written one after another.
unfoldable pub encode_all : Crc32c → List Entry → Bytes
encode_all c [] = []
encode_all c (e ∷ es) = encode_entry c e ++ encode_all c es

-- The entries with the offsets at which they stand.
unfoldable pub located : ℕ → List Entry → List Found
located offset [] = []
located offset (e ∷ es) =
    record { offset = offset; record_type = e.record_type; payload = e.payload }
    ∷ located (offset + header_len + length e.payload) es

-- Every payload is within the limit that `append` sets.
pub data Fits : List Entry → Type 0 where
  none_left : Fits []
  one_more : {e : Entry} {es : List Entry} → length e.payload < 2 ^ 32 → Fits es → Fits (e ∷ es)

-- The entries of which all bytes are among the first `n`.
unfoldable pub whole : ℕ → List Entry → List Entry
whole n [] = []
whole n (e ∷ es) =
    let size = header_len + length e.payload in
    let rest = whole (n - size) es in if ltb n size then [] else e ∷ rest
