-- ===== src/Wal/Format.antt =====
-- One record of the log as bytes: calod/crates/calod-storage/src/wal.rs. Bytes are numbers below 256,
-- and CRC32C is a parameter.
pub mod RoundTrip
use calod.Prelude.{
  ℕ, ◌+◌, ◌-◌, ◌*◌, ◌/◌, ◌%◌, ◌^◌, ◌<◌, not, Option, none, some, List, [], ◌∷◌, ◌++◌, str_eq,
  nat_beq, ltb, if◌then◌else◌, length, take, drop, get_or,
}

abbrev pub Bytes : Type 0
Bytes = List ℕ

-- The crate crc32c: the checksum of some bytes, and of more bytes after those of a checksum.
pub record Crc32c : Type 0 where
  pub crc32c : Bytes → ℕ
  pub crc32c_append : ℕ → Bytes → ℕ

-- A checksum is a `u32`.
abbrev pub IsU32 : Crc32c → Type 0
IsU32 c = (seed : ℕ) (bytes : Bytes) → c.crc32c_append seed bytes < 2 ^ 32

abbrev pub magic : Bytes
magic = b'C' ∷ b'W' ∷ []

abbrev pub format_version : ℕ
format_version = 1

abbrev pub header_len : ℕ
header_len = 13

pub data RecordType : Type 0 where
  put : RecordType
  checkpoint : RecordType

-- `record_type as u8`
abbrev pub type_code : RecordType → ℕ
type_code put = 0
type_code checkpoint = 1

abbrev pub from_u8 : ℕ → Option RecordType
from_u8 value =
    if nat_beq value 0 then some put else if nat_beq value 1 then some checkpoint else none

-- `to_le_bytes` of a `u16` and of a `u32`.
abbrev pub le_u16 : ℕ → Bytes
le_u16 n = (n % 256) ∷ (n / 256 % 256) ∷ []

abbrev pub le_u32 : ℕ → Bytes
le_u32 n = (n % 256) ∷ (n / 256 % 256) ∷ (n / 65536 % 256) ∷ (n / 16777216 % 256) ∷ []

-- `from_le_bytes`
abbrev pub u16_of : ℕ → ℕ → ℕ
u16_of a b = a + 256 * b

abbrev pub u32_of : ℕ → ℕ → ℕ → ℕ → ℕ
u32_of a b c d = a + 256 * b + 65536 * c + 16777216 * d

-- The first nine bytes of a record.
unfoldable pub header_of : RecordType → Bytes → Bytes
header_of record_type payload =
    magic ++ le_u16 format_version ++ type_code record_type ∷ le_u32 (length payload % 2 ^ 32)

unfoldable pub encode_record : Crc32c → RecordType → Bytes → Bytes
encode_record c record_type payload =
    let header = header_of record_type payload in
    header ++ le_u32 (c.crc32c_append (c.crc32c header) payload) ++ payload

-- A segment and the offset of a record's header in it.
pub record WalPosition : Type 0 where
  pub segment_id : ℕ
  pub offset : ℕ

pub data Reason : Type 0 where
  bad_magic : Reason
  unsupported_version : ℕ → Reason
  unknown_type : ℕ → Reason
  crc_mismatch : Reason

-- `truncated valid_len`, `corrupt offset reason`
pub data ScanError : Type 0 where
  truncated : ℕ → ScanError
  corrupt : ℕ → Reason → ScanError

pub record ParsedRecord : Type 0 where
  pub record_type : RecordType
  pub payload : Bytes
  pub next_offset : ℕ

pub data Parsed : Type 0 where
  parsed : ParsedRecord → Parsed
  failed : ScanError → Parsed

-- The checks of the declared length and of the checksum. `remaining` are the bytes from `offset` on.
-- A file is shorter than 2^63 bytes, so `end` fits a `u64`.
unfoldable pub parse_payload : Crc32c → ℕ → Bytes → RecordType → Parsed
parse_payload c offset remaining record_type =
    let byte = λ (i : ℕ). get_or remaining i 0 in
    let payload_len = u32_of (byte 5) (byte 6) (byte 7) (byte 8) in
    let end = offset + header_len + payload_len in
    let payload = take payload_len (drop header_len remaining) in
    let expected_crc = u32_of (byte 9) (byte 10) (byte 11) (byte 12) in
    if ltb (offset + length remaining) end
    then failed (truncated offset)
    else if not (nat_beq (c.crc32c_append (c.crc32c (take 9 remaining)) payload) expected_crc)
    then failed (corrupt offset crc_mismatch)
    else parsed (record { record_type = record_type; payload = payload; next_offset = end })

-- The checks of the header.
unfoldable pub parse_header : Crc32c → ℕ → Bytes → Parsed
unfolding parse_payload
parse_header c offset remaining =
    let byte = λ (i : ℕ). get_or remaining i 0 in
    let version = u16_of (byte 2) (byte 3) in
    if ltb (length remaining) header_len
    then failed (truncated offset)
    else if not (str_eq (take 2 remaining) magic)
    then failed (corrupt offset bad_magic)
    else if not (nat_beq version format_version)
    then failed (corrupt offset (unsupported_version version))
    else elim (from_u8 (byte 4)) [
      | none ↦ failed (corrupt offset (unknown_type (byte 4)))
      | some record_type ↦ parse_payload c offset remaining record_type
    ]

-- `remaining = buf.len() - offset` bytes are left.
unfoldable pub parse_one : Crc32c → Bytes → ℕ → Parsed
unfolding parse_header
parse_one c buf offset = parse_header c offset (drop offset buf)
