-- ===== src/Store/SortedSet/Bounds.antt =====
-- About score bounds.
use calod.Prelude.{zero, suc, ◌≡◌, Bool, not, ◌&&◌, arith}
use calod.Prelude.Int.{ℤ, pos, negsuc, leb_ℤ, ltb_ℤ}
use calod.Store.F64.{F64, plus, minus, is_nan, f64_le, f64_lt, number_leb}
use calod.Store.SortedSet.Ranges.{ScoreBound, score_in_bounds, lower_ok, upper_ok}

-- An integer that orders the numbers as their values do. Both zeros are 0.
abbrev pub value : F64 → ℤ
value (plus a) = pos a
value (minus zero) = pos 0
value (minus (suc a)) = negsuc a

-- What is at, or above, a lower bound, and at, or below, an upper one. Nothing is so for NaN.
abbrev pub is_above : ScoreBound → ℤ → Bool
is_above (ScoreBound.inclusive v) z = not (is_nan v) && leb_ℤ (value v) z
is_above (ScoreBound.exclusive v) z = not (is_nan v) && ltb_ℤ (value v) z

abbrev pub is_below : ScoreBound → ℤ → Bool
is_below (ScoreBound.inclusive v) z = not (is_nan v) && leb_ℤ z (value v)
is_below (ScoreBound.exclusive v) z = not (is_nan v) && ltb_ℤ z (value v)

number_leb-value : (a b : F64) → number_leb a b ≡ leb_ℤ (value a) (value b)
unfolding number_leb
number_leb-value (plus a) (plus b) = ground arith
number_leb-value (plus a) (minus zero) = ground arith
number_leb-value (plus a) (minus (suc b)) = ground arith
number_leb-value (minus zero) (plus b) = ground arith
number_leb-value (minus (suc a)) (plus b) = ground arith
number_leb-value (minus zero) (minus zero) = ground arith
number_leb-value (minus zero) (minus (suc b)) = ground arith
number_leb-value (minus (suc a)) (minus zero) = ground arith
number_leb-value (minus (suc a)) (minus (suc b)) = ground arith

-- `a < b` is that `b <= a` fails.
ltb_ℤ-leb_ℤ : (a b : ℤ) → not (leb_ℤ b a) ≡ ltb_ℤ a b
ltb_ℤ-leb_ℤ a b = ground arith

lower_ok-value :
    (score : F64) (min : ScoreBound)
    → lower_ok score min ≡ not (is_nan score) && is_above min (value score)
unfolding lower_ok f64_le f64_lt
lower_ok-value score (ScoreBound.inclusive v) = ground (arith, number_leb-value v score)
lower_ok-value score (ScoreBound.exclusive v) =
    ground (arith, number_leb-value score v, ltb_ℤ-leb_ℤ (value v) (value score))

upper_ok-value :
    (score : F64) (max : ScoreBound)
    → upper_ok score max ≡ not (is_nan score) && is_below max (value score)
unfolding upper_ok f64_le f64_lt
upper_ok-value score (ScoreBound.inclusive v) = ground (arith, number_leb-value score v)
upper_ok-value score (ScoreBound.exclusive v) =
    ground (arith, number_leb-value v score, ltb_ℤ-leb_ℤ (value score) (value v))

-- A score is within two bounds exactly if it is not NaN and its value is at the lower bound, where that
-- is inclusive, or above it, and at the upper bound, where that is inclusive, or below it; a NaN bound
-- admits nothing, and both zeros have the same value.
pub score_in_bounds-value :
    (score : F64) (min max : ScoreBound)
    → score_in_bounds score min max
      ≡ not (is_nan score) && (is_above min (value score) && is_below max (value score))
unfolding score_in_bounds
score_in_bounds-value score min max =
    ground (arith, lower_ok-value score min, upper_ok-value score max)
