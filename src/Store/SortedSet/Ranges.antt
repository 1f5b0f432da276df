-- ===== src/Store/SortedSet/Ranges.antt =====
-- Ranges of a sorted set, by position, score and member, and the removal of ranges:
-- calod/crates/calod-core/src/store/sorted_set.rs.
use mathlib.Core.List.{reverse}
use calod.Prelude.{
  suc, ℕ, ◌+◌, ◌-◌, Bool, true, false, not, ◌&&◌, ◌||◌, Option, none, some, List, [], ◌∷◌, map, Str,
  str_eq, keep, length, take, drop, if◌then◌else◌, nat_beq,
}
use calod.Prelude.Int.{ℤ, pos, negsuc, two64, ◌+ℤ◌, ◌-ℤ◌, ltb_ℤ, leb_ℤ}
use calod.Store.F64.{F64, f64_le, f64_lt}
use calod.Store.SortedSet.Keys.{ScoreKey, Bytes, bytes_ltb}
use calod.Store.SortedSet.{SortedSetData, len, remove_all}

pub data ScoreBound : Type 0 where
  inclusive exclusive : F64 → ScoreBound

pub data LexBound : Type 0 where
  neg_inf pos_inf : LexBound
  inclusive exclusive : Bytes → LexBound

abbrev pub is_neg : ℤ → Bool
is_neg (pos n) = false
is_neg (negsuc n) = true

-- `x as usize`, which reads the bits of a negative number as those of a number above 2^63.
abbrev pub as_usize : ℤ → ℕ
as_usize (pos n) = n
as_usize (negsuc n) = two64 - suc n

-- A length is below 2^63, so the sums do not overflow.
unfoldable pub normalize_index_range : ℤ → ℤ → ℕ → Option (ℕ × ℕ)
unfolding ◌+ℤ◌ ◌-ℤ◌
normalize_index_range start stop len =
    let len_i = pos len in
    let lo = if is_neg start then len_i +ℤ start else start in
    let hi = if is_neg stop then len_i +ℤ stop else stop in
    let lo = if is_neg lo then pos 0 else lo in
    let hi = if is_neg hi then pos 0 else hi in
    let hi = if leb_ℤ len_i hi then len_i -ℤ pos 1 else hi in
    if nat_beq len 0
    then none
    else if ltb_ℤ hi lo || leb_ℤ len_i lo
    then none
    else some (as_usize lo, as_usize hi)

unfoldable pub apply_limit {ℓ} : {A : Type ℓ} → List A → ℕ → Option ℕ → List A
apply_limit xs offset none = drop offset xs
apply_limit xs offset (some count) = take count (drop offset xs)

unfoldable pub lower_ok : F64 → ScoreBound → Bool
lower_ok score (ScoreBound.inclusive v) = f64_le v score
lower_ok score (ScoreBound.exclusive v) = f64_lt v score

unfoldable pub upper_ok : F64 → ScoreBound → Bool
upper_ok score (ScoreBound.inclusive v) = f64_le score v
upper_ok score (ScoreBound.exclusive v) = f64_lt score v

unfoldable pub score_in_bounds : F64 → ScoreBound → ScoreBound → Bool
unfolding lower_ok upper_ok
score_in_bounds score min max = lower_ok score min && upper_ok score max

unfoldable pub lex_lower_ok : Bytes → LexBound → Bool
unfolding bytes_ltb
lex_lower_ok member LexBound.neg_inf = true
lex_lower_ok member LexBound.pos_inf = false
lex_lower_ok member (LexBound.inclusive v) = not (bytes_ltb member v)
lex_lower_ok member (LexBound.exclusive v) = bytes_ltb v member

unfoldable pub lex_upper_ok : Bytes → LexBound → Bool
unfolding bytes_ltb
lex_upper_ok member LexBound.pos_inf = true
lex_upper_ok member LexBound.neg_inf = false
lex_upper_ok member (LexBound.inclusive v) = not (bytes_ltb v member)
lex_upper_ok member (LexBound.exclusive v) = bytes_ltb member v

unfoldable pub lex_in_bounds : Bytes → LexBound → LexBound → Bool
unfolding lex_lower_ok lex_upper_ok
lex_in_bounds member min max = lex_lower_ok member min && lex_upper_ok member max

-- The text after `[` or `(` is the bound. `none` is the error.
unfoldable pub parse_lex_bound : Str → Option LexBound
parse_lex_bound [] = none
parse_lex_bound (c ∷ rest) =
    if nat_beq c b'-' && str_eq rest []
    then some LexBound.neg_inf
    else if nat_beq c b'+' && str_eq rest []
    then some LexBound.pos_inf
    else if nat_beq c b'['
    then some (LexBound.inclusive rest)
    else if nat_beq c b'('
    then some (LexBound.exclusive rest)
    else none

unfoldable pub in_order : Bool → List ScoreKey → List ScoreKey
in_order rev ks = if rev then reverse ks else ks

unfoldable pub range_by_index : ℤ → ℤ → Bool → SortedSetData → List ScoreKey
unfolding normalize_index_range
range_by_index start stop rev s = elim (normalize_index_range start stop (len s)) [
  | none ↦ []
  | some (lo, hi) ↦
      if rev
      then take (hi - lo + 1) (drop (len s - 1 - hi) (reverse s.index))
      else take (hi - lo + 1) (drop lo s.index)
]

abbrev pub score_within : ScoreBound → ScoreBound → ScoreKey → Bool
score_within min max k = score_in_bounds k.score min max

abbrev pub lex_within : LexBound → LexBound → ScoreKey → Bool
lex_within min max k = lex_in_bounds k.member min max

unfoldable pub range_by_score :
    ScoreBound → ScoreBound → Bool → ℕ → Option ℕ → SortedSetData → List ScoreKey
unfolding in_order apply_limit
range_by_score min max rev offset count s =
    apply_limit (in_order rev (keep (score_within min max) s.index)) offset count

unfoldable pub count_by_score : ScoreBound → ScoreBound → SortedSetData → ℕ
count_by_score min max s = length (keep (score_within min max) s.index)

unfoldable pub range_by_lex : LexBound → LexBound → Bool → ℕ → Option ℕ → SortedSetData → List Bytes
unfolding in_order apply_limit
range_by_lex min max rev offset count s =
    apply_limit (map (λ k. k.member) (in_order rev (keep (lex_within min max) s.index))) offset
      count

unfoldable pub count_by_lex : LexBound → LexBound → SortedSetData → ℕ
count_by_lex min max s = length (keep (lex_within min max) s.index)

-- The number of victims, and the set without them.
unfoldable pub remove_victims : List ScoreKey → SortedSetData → ℕ × SortedSetData
unfolding remove_all
remove_victims victims s = (length victims, remove_all victims s)

unfoldable pub remove_range_by_rank : ℤ → ℤ → SortedSetData → ℕ × SortedSetData
unfolding remove_victims range_by_index
remove_range_by_rank start stop s = remove_victims (range_by_index start stop false s) s

unfoldable pub remove_range_by_score : ScoreBound → ScoreBound → SortedSetData → ℕ × SortedSetData
unfolding remove_victims
remove_range_by_score min max s = remove_victims (keep (score_within min max) s.index) s

unfoldable pub remove_range_by_lex : LexBound → LexBound → SortedSetData → ℕ × SortedSetData
unfolding remove_victims
remove_range_by_lex min max s = remove_victims (keep (lex_within min max) s.index) s
