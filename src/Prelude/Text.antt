-- ===== src/Prelude/Text.antt =====
-- Numbers rendered as text by `format!`: decimal, zero-padded, signed; and numbers read from text.
pub mod Decimal
use Prim.Native.Nat.{ℕ, zero, suc, ◌+◌, ◌*◌, ◌-◌, ◌/◌, ◌%◌, ◌^◌}
use mathlib.Core.Bool.{Bool, true, false, not, ◌&&◌}
use mathlib.Core.List.{[], ◌∷◌, ◌++◌}
use mathlib.Core.Option.{Option, none, some}
use calod.Prelude.Tests.{Str, ltb, leb, str_eq, if◌then◌else◌}
use calod.Prelude.Lists.{length, replicate, all, take, drop}
use calod.Prelude.Int.{ℤ, pos, negsuc}

abbrev pub is_ascii_digit : ℕ → Bool
is_ascii_digit b = leb 48 b && leb b 57

-- The number that a run of digits spells, after those read already.
unfoldable pub value_onto : ℕ → Str → ℕ
value_onto acc [] = acc
value_onto acc (b ∷ bs) = value_onto (acc * 10 + (b - 48)) bs

-- `s.parse::<u64>()` of a text with no sign.
unfoldable pub parse_u64 : Str → Option ℕ
unfolding value_onto all str_eq
parse_u64 s =
    if not (str_eq s []) && all is_ascii_digit s && ltb (value_onto 0 s) (2 ^ 64)
    then some (value_onto 0 s)
    else none

-- `s.strip_prefix(prefix)`
unfoldable pub strip_prefix : Str → Str → Option Str
unfolding str_eq
strip_prefix prefix s =
    if str_eq (take (length prefix) s) prefix then some (drop (length prefix) s) else none

-- `s.strip_suffix(suffix)`
unfoldable pub strip_suffix : Str → Str → Option Str
unfolding str_eq
strip_suffix suffix s =
    let front = length s - length suffix in
    if leb (length suffix) (length s) && str_eq (drop front s) suffix
    then some (take front s)
    else none

-- The digits of `n` in front of `acc`. `n` has at most `n + 1` digits.
decimal_onto : ℕ → ℕ → Str → Str
decimal_onto zero n acc = acc
decimal_onto (suc fuel) n acc = elim (ltb n 10) [
  | true ↦ (48 + n) ∷ acc
  | false ↦ decimal_onto fuel (n / 10) ((48 + n % 10) ∷ acc)
]

-- `{n}`
unfoldable pub decimal : ℕ → Str
unfolding decimal_onto
decimal n = decimal_onto (n + 1) n []

-- `{n:0w}`
unfoldable pub zero_padded : ℕ → ℕ → Str
unfolding decimal
zero_padded w n = replicate (w - length (decimal n)) 48 ++ decimal n

-- `{n}` of a signed number.
unfoldable pub decimal_ℤ : ℤ → Str
unfolding decimal
decimal_ℤ (pos n) = decimal n
decimal_ℤ (negsuc n) = 45 ∷ decimal (n + 1)

-- `{n:0w}` of a signed number: the sign counts towards the width.
unfoldable pub zero_padded_ℤ : ℕ → ℤ → Str
unfolding zero_padded
zero_padded_ℤ w (pos n) = zero_padded w n
zero_padded_ℤ w (negsuc n) = 45 ∷ zero_padded (w - 1) (n + 1)
