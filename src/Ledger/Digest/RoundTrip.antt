-- ===== src/Ledger/Digest/RoundTrip.antt =====
-- About decoding a rendered digest.
use calod.Prelude.{
  ℕ, zero, suc, ◌+◌, ◌*◌, ◌/◌, ◌%◌, ◌<◌, ◌≡◌, refl, ◌∙◌, ap, Bool, true, ◌&&◌, Option, none, some,
  List, [], ◌∷◌, ◌++◌, Str, str, nat_beq, nat_beq_iff, ltb, get_or, length, all, opt_eq, arith,
  Bool-cases, inl, inr,
}
use calod.Ledger.Json.{Platform}
use calod.Ledger.Digest.{
  hex_encode, to_digit16, hex_pairs, hex_decode_32, strip_prefix, digest_bytes, sha256_digest,
}

abbrev hex_digit : ℕ → ℕ
hex_digit n = get_or (str "0123456789abcdef") n 0

abbrev decodes : ℕ → Bool
decodes n = opt_eq nat_beq (to_digit16 (hex_digit n)) (some n)

unfoldable all_below : ℕ → (ℕ → Bool) → Bool
all_below zero test = true
all_below (suc n) test = test n && all_below n test

all_below_lem : (n m : ℕ) (test : ℕ → Bool) → all_below n test ≡ true → m < n → test m ≡ true
unfolding all_below
all_below_lem zero m test h lt = absurd (ground arith)
all_below_lem (suc n) m test h lt = elim (Bool-cases (nat_beq m n)) [
  | inl same ↦ rw ((nat_beq_iff m n).0 same) (ground arith)
  | inr other ↦ all_below_lem n m test (ground arith) (ground (arith, nat_beq_iff m n))
]

digits_decode : all_below 16 decodes ≡ true
unfolding all_below to_digit16 opt_eq str
digits_decode = refl

opt_some : (o : Option ℕ) (n : ℕ) → opt_eq nat_beq o (some n) ≡ true → o ≡ some n
unfolding opt_eq
opt_some none n h = absurd (cc)
opt_some (some m) n h = ap some ((nat_beq_iff m n).0 h)

to_digit16-hex_digit : (n : ℕ) → n < 16 → to_digit16 (hex_digit n) ≡ some n
to_digit16-hex_digit n lt = opt_some _ n (all_below_lem 16 n decodes digits_decode lt)

-- A list of bytes.
abbrev pub are_bytes : List ℕ → Bool
are_bytes bytes = all (λ b. ltb b 256) bytes

hex_pairs-cons :
    (c d hi lo : ℕ) (rest : Str) (bytes : List ℕ)
    → to_digit16 c ≡ some hi
    → to_digit16 d ≡ some lo
    → hex_pairs rest ≡ some bytes
    → hex_pairs (c ∷ d ∷ rest) ≡ some ((hi * 16 + lo) % 256 ∷ bytes)
unfolding hex_pairs
hex_pairs-cons c d hi lo rest bytes hc hd hr = rw (hc, hd, hr) refl

pub hex_pairs-hex_encode :
    (bytes : List ℕ) → are_bytes bytes ≡ true → hex_pairs (hex_encode bytes) ≡ some bytes
unfolding hex_encode all
hex_pairs-hex_encode [] h = unfold hex_pairs in refl
hex_pairs-hex_encode (b ∷ bytes) h =
    hex_pairs-cons _ _ (b / 16) (b % 16) (hex_encode bytes) bytes
      (to_digit16-hex_digit (b / 16) (ground arith)) (to_digit16-hex_digit (b % 16) (ground arith))
      (hex_pairs-hex_encode bytes (ground arith))
    ∙ ap (λ n. some (n ∷ bytes)) (ground arith)

length-hex_encode : (bytes : List ℕ) → length (hex_encode bytes) ≡ 2 * length bytes
unfolding hex_encode
length-hex_encode [] = refl
length-hex_encode (b ∷ bytes) = ground (arith, length-hex_encode bytes)

strip_prefix-append : (xs s : Str) → strip_prefix xs (xs ++ s) ≡ some s
unfolding strip_prefix
strip_prefix-append [] s = refl
strip_prefix-append (x ∷ xs) s = ground (arith, strip_prefix-append xs s, nat_beq_iff x x)

-- A digest that SHA-256 gives as 32 bytes is rendered so that `digest_bytes` reads the bytes back.
pub digest_bytes-sha256_digest :
    (p : Platform) (bytes : Str)
    → length (p.sha256 bytes) ≡ 32
    → are_bytes (p.sha256 bytes) ≡ true
    → digest_bytes (sha256_digest p bytes) ≡ some (p.sha256 bytes)
unfolding digest_bytes sha256_digest hex_decode_32
digest_bytes-sha256_digest p bytes long small =
    rw
      (
        strip_prefix-append (str "sha256:") (hex_encode (p.sha256 bytes)),
        length-hex_encode (p.sha256 bytes),
        long,
      )
      (hex_pairs-hex_encode (p.sha256 bytes) small)
