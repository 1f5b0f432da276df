-- ===== src/Prelude/Text/Decimal.antt =====
-- About numbers written in decimal and read back.
use Prim.Native.Nat.{ℕ, zero, suc, ◌+◌, ◌-◌, ◌/◌, ◌%◌, ◌^◌, ◌<◌, ◌≤◌}
use mathlib.Core.Path.{◌≡◌, refl, ap, ◌∙◌}
use mathlib.Core.Bool.{true}
use mathlib.Core.Logic.{inl, inr}
use mathlib.Core.List.{[], ◌∷◌, ◌++◌}
use mathlib.Core.Option.{some}
use native.Mathlib.Omega.{arith}
use calod.Prelude.Tests.{Str, ltb, str_eq, Bool-cases}
use calod.Prelude.Lists.{length, replicate, all}
use calod.Prelude.Text.{is_ascii_digit, value_onto, parse_u64, decimal_onto, decimal, zero_padded}

decimal_onto-step :
    (fuel n : ℕ) (acc : Str)
    → 10 ≤ n
    → decimal_onto (suc fuel) n acc ≡ decimal_onto fuel (n / 10) ((48 + n % 10) ∷ acc)
unfolding decimal_onto
decimal_onto-step fuel n acc h = ground arith

decimal_onto-last :
    (fuel n : ℕ) (acc : Str) → n < 10 → decimal_onto (suc fuel) n acc ≡ (48 + n) ∷ acc
unfolding decimal_onto
decimal_onto-last fuel n acc h = ground arith

value_last : (n : ℕ) (acc : Str) → n < 10 → value_onto 0 ((48 + n) ∷ acc) ≡ value_onto n acc
unfolding value_onto
value_last n acc h = ap (λ v. value_onto v acc) (omega arith)

value_step : (n : ℕ) (acc : Str) → value_onto (n / 10) ((48 + n % 10) ∷ acc) ≡ value_onto n acc
unfolding value_onto
value_step n acc = ap (λ v. value_onto v acc) (omega arith)

value_onto-decimal_onto :
    (fuel n : ℕ) (acc : Str) → n < fuel → value_onto 0 (decimal_onto fuel n acc) ≡ value_onto n acc
value_onto-decimal_onto zero n acc h = absurd (omega arith)
value_onto-decimal_onto (suc fuel) n acc h = elim (Bool-cases (ltb n 10)) [
  | inl small ↦ rw (decimal_onto-last fuel n acc (ground arith)) (value_last n acc (ground arith))
  | inr big ↦ rw (decimal_onto-step fuel n acc (ground arith)) (
      value_onto-decimal_onto fuel (n / 10) ((48 + n % 10) ∷ acc) (ground arith) ∙ value_step n acc)
]

digit-all :
    (b : ℕ) (acc : Str)
    → 48 ≤ b
    → b ≤ 57
    → all is_ascii_digit acc ≡ true
    → all is_ascii_digit (b ∷ acc) ≡ true
unfolding all
digit-all b acc low high digits = ground arith

digits_onto :
    (fuel n : ℕ) (acc : Str)
    → n < fuel
    → all is_ascii_digit acc ≡ true
    → (all is_ascii_digit (decimal_onto fuel n acc) ≡ true)
      × (length acc < length (decimal_onto fuel n acc))
digits_onto zero n acc h digits = absurd (omega arith)
digits_onto (suc fuel) n acc h digits = elim (Bool-cases (ltb n 10)) [
  | inl small ↦
      rw (decimal_onto-last fuel n acc (ground arith))
        (digit-all (48 + n) acc (ground arith) (ground arith) digits, omega arith)
  | inr big ↦
      let more : (all is_ascii_digit (decimal_onto fuel (n / 10) ((48 + n % 10) ∷ acc)) ≡ true)
          × (suc (length acc) < length (decimal_onto fuel (n / 10) ((48 + n % 10) ∷ acc))) =
        digits_onto fuel (n / 10) ((48 + n % 10) ∷ acc) (ground arith)
          (digit-all (48 + n % 10) acc (omega arith) (omega arith) digits) in
      rw (decimal_onto-step fuel n acc (ground arith)) (more.0, omega arith)
]

padding : ℕ → Str → Str
padding k s = replicate k 48 ++ s

value-padding : (k : ℕ) (s : Str) → value_onto 0 (padding k s) ≡ value_onto 0 s
unfolding padding value_onto
value-padding zero s = refl
value-padding (suc k) s = value-padding k s

all-padding :
    (k : ℕ) (s : Str) → all is_ascii_digit s ≡ true → all is_ascii_digit (padding k s) ≡ true
unfolding padding all
all-padding zero s h = h
all-padding (suc k) s h = all-padding k s h

length-padding : (k : ℕ) (s : Str) → length s ≤ length (padding k s)
unfolding padding
length-padding zero s = omega arith
length-padding (suc k) s = omega (arith, length-padding k s)

parse_u64_digits :
    (s : Str) (n : ℕ)
    → 0 < length s
    → all is_ascii_digit s ≡ true
    → value_onto 0 s ≡ n
    → n < 2 ^ 64
    → parse_u64 s ≡ some n
unfolding parse_u64 str_eq
parse_u64_digits [] n some_digit digits value h = absurd (omega arith)
parse_u64_digits (b ∷ s) n some_digit digits value h = rw (digits, value) (ground arith)

-- A number is read back from its zero-padded decimal digits.
pub parse_u64-zero_padded : (w n : ℕ) → n < 2 ^ 64 → parse_u64 (zero_padded w n) ≡ some n
unfolding zero_padded decimal padding all value_onto
parse_u64-zero_padded w n h =
    let k = w - length (decimal n) in
    let digits : (all is_ascii_digit (decimal n) ≡ true) × (0 < length (decimal n)) =
      digits_onto (n + 1) n [] (omega arith) refl in
    parse_u64_digits (padding k (decimal n)) n (omega (arith, length-padding k (decimal n)))
      (all-padding k (decimal n) digits.0)
      (value-padding k (decimal n) ∙ value_onto-decimal_onto (n + 1) n [] (omega arith)) h
