-- ===== src/Store/F64.antt =====
-- `f64` as a sign and the 63 bits below it (exponent and fraction), with the orders that the source
-- uses. The magnitude grows with those bits.
use calod.Prelude.{
  ℕ, ◌*◌, ◌^◌, ◌≡◌, ◌↔◌, refl, Bool, true, false, not, ◌&&◌, ltb, leb, nat_beq, arith,
}

pub data F64 : Type 0 where
  plus : ℕ → F64
  minus : ℕ → F64

-- `a.total_cmp(&b) == Less`: -0 is below +0, and every pattern has its place.
unfoldable pub total_ltb : F64 → F64 → Bool
total_ltb (plus a) (plus b) = ltb a b
total_ltb (plus a) (minus b) = false
total_ltb (minus a) (plus b) = true
total_ltb (minus a) (minus b) = ltb b a

-- `a.to_bits() == b.to_bits()`
unfoldable pub same_bits : F64 → F64 → Bool
same_bits (plus a) (plus b) = nat_beq a b
same_bits (plus a) (minus b) = false
same_bits (minus a) (plus b) = false
same_bits (minus a) (minus b) = nat_beq a b

-- The bits of an infinity; what lies above it is NaN.
abbrev pub infinity : ℕ
infinity = 2047 * 2 ^ 52

unfoldable pub is_nan : F64 → Bool
is_nan (plus a) = ltb infinity a
is_nan (minus a) = ltb infinity a

-- `a <= b` of two numbers: the zeros are equal.
unfoldable pub number_leb : F64 → F64 → Bool
number_leb (plus a) (plus b) = leb a b
number_leb (plus a) (minus b) = nat_beq a 0 && nat_beq b 0
number_leb (minus a) (plus b) = true
number_leb (minus a) (minus b) = leb b a

-- `a <= b` and `a < b`: no comparison with NaN holds.
unfoldable pub f64_le : F64 → F64 → Bool
unfolding is_nan number_leb
f64_le a b = not (is_nan a) && not (is_nan b) && number_leb a b

unfoldable pub f64_lt : F64 → F64 → Bool
unfolding is_nan number_leb
f64_lt a b = not (is_nan a) && not (is_nan b) && not (number_leb b a)

pub total_ltb_irrefl : (a : F64) → total_ltb a a ≡ false
unfolding total_ltb
total_ltb_irrefl (plus a) = ground arith
total_ltb_irrefl (minus a) = ground arith

pub total_ltb_trans :
    (a b c : F64) → total_ltb a b ≡ true → total_ltb b c ≡ true → total_ltb a c ≡ true
unfolding total_ltb
total_ltb_trans (plus a) (plus b) (plus c) h k = ground arith
total_ltb_trans (plus a) (plus b) (minus c) h k = k
total_ltb_trans (plus a) (minus b) c h k = cc
total_ltb_trans (minus a) (plus b) (plus c) h k = refl
total_ltb_trans (minus a) (plus b) (minus c) h k = cc
total_ltb_trans (minus a) (minus b) (plus c) h k = refl
total_ltb_trans (minus a) (minus b) (minus c) h k = ground arith

pub total_ltb_connected : (a b : F64) → total_ltb a b ≡ false → total_ltb b a ≡ false → a ≡ b
unfolding total_ltb
total_ltb_connected (plus a) (plus b) h k = ground arith
total_ltb_connected (plus a) (minus b) h k = cc
total_ltb_connected (minus a) (plus b) h k = cc
total_ltb_connected (minus a) (minus b) h k = ground arith

pub same_bits_iff : (a b : F64) → (same_bits a b ≡ true) ↔ (a ≡ b)
unfolding same_bits
same_bits_iff (plus a) (plus b) = (λ h. ground arith, λ h. ground arith)
same_bits_iff (plus a) (minus b) = (λ h. cc, λ h. cc)
same_bits_iff (minus a) (plus b) = (λ h. cc, λ h. cc)
same_bits_iff (minus a) (minus b) = (λ h. ground arith, λ h. ground arith)
