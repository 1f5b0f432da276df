-- ===== src/Prelude/Int.antt =====
-- Signed 64-bit integers (`i64`): integers over the native numbers, with the wrap-around of the
-- release build written out. Sums and orders go through the two parts of an integer, which are
-- numbers that `omega` reads.
use Prim.Native.Nat.{ℕ, suc, ◌+◌, ◌-◌, ◌%◌, ◌^◌, ◌≤◌, ◌<◌}
use mathlib.Core.Path.{◌≡◌}
use mathlib.Core.Logic.{◌↔◌}
use mathlib.Core.Bool.{Bool, true}
use native.Mathlib.Omega.{arith}
use calod.Prelude.Tests.{ltb, leb, nat_beq, if◌then◌else◌}

-- `negsuc n` is -(n + 1).
pub data ℤ : Type 0 where
  pos : ℕ → ℤ
  negsuc : ℕ → ℤ

abbrev pub pos_part : ℤ → ℕ
pos_part (pos n) = n
pos_part (negsuc n) = 0

abbrev pub neg_part : ℤ → ℕ
neg_part (pos n) = 0
neg_part (negsuc n) = suc n

-- a - b, as an integer.
abbrev pub sub_ℕ : ℕ → ℕ → ℤ
sub_ℕ a b = if leb b a then pos (a - b) else negsuc (b - a - 1)

infixl 65 ◌+ℤ◌ ◌-ℤ◌
infix 50 ◌≤ℤ◌ ◌<ℤ◌
unfoldable pub ◌+ℤ◌ : ℤ → ℤ → ℤ
a +ℤ b = sub_ℕ (pos_part a + pos_part b) (neg_part a + neg_part b)

unfoldable pub ◌-ℤ◌ : ℤ → ℤ → ℤ
a -ℤ b = sub_ℕ (pos_part a + neg_part b) (neg_part a + pos_part b)

abbrev pub ◌≤ℤ◌ : ℤ → ℤ → Type 0
a ≤ℤ b = pos_part a + neg_part b ≤ pos_part b + neg_part a

abbrev pub ◌<ℤ◌ : ℤ → ℤ → Type 0
a <ℤ b = pos_part a + neg_part b < pos_part b + neg_part a

abbrev pub ltb_ℤ : ℤ → ℤ → Bool
ltb_ℤ a b = ltb (pos_part a + neg_part b) (pos_part b + neg_part a)

abbrev pub leb_ℤ : ℤ → ℤ → Bool
leb_ℤ a b = leb (pos_part a + neg_part b) (pos_part b + neg_part a)

abbrev pub eq_ℤ : ℤ → ℤ → Bool
eq_ℤ a b = nat_beq (pos_part a + neg_part b) (pos_part b + neg_part a)

pub eq_ℤ_iff : (a b : ℤ) → (eq_ℤ a b ≡ true) ↔ (a ≡ b)
eq_ℤ_iff (pos a) (pos b) = (λ h. ground arith, λ h. ground arith)
eq_ℤ_iff (pos a) (negsuc b) = (λ h. ground arith, λ h. ground arith)
eq_ℤ_iff (negsuc a) (pos b) = (λ h. ground arith, λ h. ground arith)
eq_ℤ_iff (negsuc a) (negsuc b) = (λ h. ground arith, λ h. ground arith)

abbrev pub two64 : ℕ
two64 = 2 ^ 64

abbrev pub two63 : ℕ
two63 = 2 ^ 63

abbrev pub i64_max : ℤ
i64_max = pos (2 ^ 63 - 1)

abbrev pub i64_min : ℤ
i64_min = negsuc (2 ^ 63 - 1)

-- The bit pattern of an integer, read as an unsigned number.
unfoldable pub to_u64 : ℤ → ℕ
to_u64 a = (pos_part a + (two64 - neg_part a % two64)) % two64

-- The integer that a 64-bit pattern stands for.
unfoldable pub of_u64 : ℕ → ℤ
of_u64 u = if ltb u two63 then pos u else negsuc (two64 - u - 1)

unfoldable pub wrap_i64 : ℤ → ℤ
unfolding to_u64 of_u64
wrap_i64 a = of_u64 (to_u64 a)

-- What fits an `i64`.
abbrev pub IsI64 : ℤ → Type 0
IsI64 a = (pos_part a < two63) × (neg_part a ≤ two63)

unfoldable pub add_i64 : ℤ → ℤ → ℤ
unfolding ◌+ℤ◌ wrap_i64
add_i64 a b = wrap_i64 (a +ℤ b)

unfoldable pub sub_i64 : ℤ → ℤ → ℤ
unfolding ◌-ℤ◌ wrap_i64
sub_i64 a b = wrap_i64 (a -ℤ b)

-- `saturating_sub`
unfoldable pub saturating_sub_i64 : ℤ → ℤ → ℤ
unfolding ◌-ℤ◌
saturating_sub_i64 a b =
    if ltb_ℤ i64_max (a -ℤ b) then i64_max else if ltb_ℤ (a -ℤ b) i64_min then i64_min else a -ℤ b

pub wrap_i64_of_IsI64 : (a : ℤ) → IsI64 a → wrap_i64 a ≡ a
unfolding wrap_i64
wrap_i64_of_IsI64 (pos n) h = ground arith
wrap_i64_of_IsI64 (negsuc n) h = ground arith

pub add_i64-pos : (a b : ℕ) → a + b < two63 → add_i64 (pos a) (pos b) ≡ pos (a + b)
unfolding add_i64
add_i64-pos a b h = ground arith

pub add_i64_exact : (a b : ℤ) → IsI64 (a +ℤ b) → add_i64 a b ≡ a +ℤ b
unfolding add_i64
add_i64_exact a b h = wrap_i64_of_IsI64 (a +ℤ b) h
