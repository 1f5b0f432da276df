-- ===== src/Wal/Format/RoundTrip.antt =====
-- About the encoding of one record and what parsing finds in it.
use Prim.Native.Nat.{suc, ◌/◌}
use calod.Prelude.{
  ℕ, sym, ◌∙◌, some, ◌+◌, ◌%◌, ◌^◌, ◌<◌, ◌≡◌, refl, [], ◌∷◌, ◌++◌, arith, length, take,
  length-append, length-take, Bool-cases, inl, inr, ◌-◌, str_eq, ltb,
}
use calod.Prelude.Cuts.{take-append_self}
use calod.Wal.Format.{
  Bytes, magic, format_version, from_u8, type_code, u16_of, Crc32c, IsU32, RecordType, put,
  checkpoint, encode_record, header_of, header_len, parsed, failed, truncated, parse_payload,
  parse_header, u32_of,
}

pub length-encode_record :
    (c : Crc32c) (record_type : RecordType) (payload : Bytes)
    → length (encode_record c record_type payload) ≡ length payload + header_len
unfolding encode_record header_of
length-encode_record c record_type payload = omega arith

u32_of-le_u32 :
    (n : ℕ)
    → n < 2 ^ 32
    → u32_of (n % 256) (n / 256 % 256) (n / 65536 % 256) (n / 16777216 % 256) ≡ n
u32_of-le_u32 n h = omega arith

u32_exact : (n : ℕ) → n < 2 ^ 32 → n % 2 ^ 32 ≡ n
u32_exact n h = omega arith

-- A whole record, byte by byte, that passes the checks.
module _ (c : Crc32c) (v0 v1 t l0 l1 l2 l3 c0 c1 c2 c3 : ℕ) (payload rest : Bytes)
    (offset : ℕ) where
  abbrev first_nine : Bytes
  first_nine = magic ++ v0 ∷ v1 ∷ t ∷ l0 ∷ l1 ∷ l2 ∷ l3 ∷ []

  whole-parse_payload :
      (record_type : RecordType)
      → u32_of l0 l1 l2 l3 ≡ length payload
      → c.crc32c_append (c.crc32c first_nine) payload ≡ u32_of c0 c1 c2 c3
      → parse_payload c offset (first_nine ++ c0 ∷ c1 ∷ c2 ∷ c3 ∷ payload ++ rest) record_type
        ≡ parsed (record {
          record_type = record_type;
          payload = payload;
          next_offset = offset + header_len + length payload;
        })
  unfolding parse_payload
  whole-parse_payload record_type len sum =
      rw (len, take-append_self payload rest) (ground (arith, sum, length-append payload rest))

  whole-parse_header :
      (record_type : RecordType)
      → u16_of v0 v1 ≡ format_version
      → from_u8 t ≡ some record_type
      → u32_of l0 l1 l2 l3 ≡ length payload
      → c.crc32c_append (c.crc32c first_nine) payload ≡ u32_of c0 c1 c2 c3
      → parse_header c offset (first_nine ++ c0 ∷ c1 ∷ c2 ∷ c3 ∷ payload ++ rest)
        ≡ parsed (record {
          record_type = record_type;
          payload = payload;
          next_offset = offset + header_len + length payload;
        })
  unfolding parse_header str_eq
  whole-parse_header record_type version code len sum =
      ground (arith, whole-parse_payload record_type len sum)

  torn-parse_header :
      (record_type : RecordType)
      → u16_of v0 v1 ≡ format_version
      → from_u8 t ≡ some record_type
      → length rest < u32_of l0 l1 l2 l3
      → parse_header c offset (first_nine ++ c0 ∷ c1 ∷ c2 ∷ c3 ∷ rest) ≡ failed (truncated offset)
  unfolding parse_header str_eq parse_payload
  torn-parse_header record_type version code short = ground arith

from_u8-type_code : (t : RecordType) → from_u8 (type_code t) ≡ some t
from_u8-type_code put = refl
from_u8-type_code checkpoint = refl

pub encode_record-parse_header :
    (c : Crc32c)
    → IsU32 c
    → (record_type : RecordType) (payload rest : Bytes) (offset : ℕ) → length payload < 2 ^ 32
    → parse_header c offset (encode_record c record_type payload ++ rest)
      ≡ parsed (record {
        record_type = record_type;
        payload = payload;
        next_offset = offset + header_len + length payload;
      })
unfolding encode_record header_of
encode_record-parse_header c small t payload rest offset h =
    whole-parse_header c _ _ _ _ _ _ _ _ _ _ _ payload rest offset t refl (from_u8-type_code t)
      (u32_of-le_u32 _ (omega arith) ∙ u32_exact (length payload) h)
      (sym (u32_of-le_u32 _ (small _ payload)))

short-parse_header :
    (c : Crc32c) (offset : ℕ) (bytes : Bytes)
    → length bytes < header_len
    → parse_header c offset bytes ≡ failed (truncated offset)
unfolding parse_header
short-parse_header c offset bytes h = ground arith

-- `header_len + m`, by successors.
abbrev past_header : ℕ → ℕ
past_header m = suc (suc (suc (suc (suc (suc (suc (suc (suc (suc (suc (suc (suc m))))))))))))

module _ (c : Crc32c) (t : RecordType) (payload : Bytes) (offset : ℕ)
    (fits : length payload < 2 ^ 32) where
  torn_payload :
      (m : ℕ)
      → m < length payload
      → parse_header c offset (take (past_header m) (encode_record c t payload))
        ≡ failed (truncated offset)
  unfolding encode_record header_of
  torn_payload m short =
      torn-parse_header c _ _ _ _ _ _ _ _ _ _ _ payload (take m payload) offset t refl
        (from_u8-type_code t) (omega (arith, length-take m payload))

  -- A record that was not written to its end is seen as truncated.
  pub take-encode_record-parse_header :
      (n : ℕ)
      → n < length (encode_record c t payload)
      → parse_header c offset (take n (encode_record c t payload)) ≡ failed (truncated offset)
  take-encode_record-parse_header n short = elim (Bool-cases (ltb n header_len)) [
    | inl early ↦
        short-parse_header c offset _ (ground (arith, length-take n (encode_record c t payload)))
    | inr late ↦
        let e : n ≡ past_header (n - header_len) = ground arith in
        rw e (torn_payload (n - header_len) (ground (arith, length-encode_record c t payload)))
  ]
