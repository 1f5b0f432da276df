-- ===== src/Store/Tests.antt =====
-- Runs of the store's data structures on small inputs.
use calod.Prelude.{
  ℕ, ◌≡◌, ◌↔◌, refl, Bool, true, false, not, Option, none, some, List, [], ◌∷◌, ◌++◌, ◌+◌, ◌*◌, ◌^◌,
  length, ltb, ◌&&◌, str_Eq, get_elem?, ◌≤◌, ◌<◌,
}
use mathlib.Core.List.{reverse}
use calod.Prelude.Int.{pos, negsuc}
use calod.Prelude.Map.{Map, get}
use calod.Store.F64.{is_nan, F64}
use calod.Store.F64.F64.{plus, minus}
use calod.Store.SortedSet.{SortedSetData, new, key, add, len, score, rank, pop_min, from_map}
use calod.Store.SortedSet.Keys.{ScoreKey, Bytes}
use calod.Store.SortedSet.Ranges.{
  ScoreBound, range_by_index, remove_range_by_score, score_in_bounds, normalize_index_range,
}
use calod.Store.SortedSet.Synced.{IsSynced}
use calod.Store.SortedSet.Reached.{IsReached, created, after, adds, reached-IsSynced}
use calod.Store.SortedSet.Removals.{filtered, remove_range_by_score_exact, pop_min_exact}
use calod.Store.SortedSet.Rebuilds.{from_map_restores}
use calod.Store.SortedSet.Ranks.{rank_iff}
use calod.Store.SortedSet.Windows.{range_by_index_places, named}
use calod.Store.SortedSet.Positions.{from_start, upto_stop, is_inside, normalize_index_range_places}
use calod.Store.SortedSet.Bounds.{value, is_above, is_below, score_in_bounds-value}

abbrev ann : Bytes
ann = b'a' ∷ []

abbrev bob : Bytes
bob = b'b' ∷ []

abbrev cam : Bytes
cam = b'c' ∷ []

-- The scores 1.0, 2.0 and -1.0.
abbrev one : F64
one = plus (1023 * 2 ^ 52)

abbrev two : F64
two = plus (1024 * 2 ^ 52)

abbrev minus_one : F64
minus_one = minus (1023 * 2 ^ 52)

abbrev three : SortedSetData
three = (add cam minus_one (add bob one (add ann two new).0).0).0

three_IsReached : IsReached three
three_IsReached = after (after (after created (adds ann two)) (adds bob one)) (adds cam minus_one)

three_index : three.index ≡ key minus_one cam ∷ key one bob ∷ key two ann ∷ []
unfolding add get calod.Prelude.Map.insert calod.Prelude.str_eq calod.Store.OrderedSet.insert
    calod.Store.SortedSet.Keys.key_lt calod.Store.F64.total_ltb
three_index = refl

reached-IsSynced_example : IsSynced three
reached-IsSynced_example = reached-IsSynced three_IsReached

remove_range_by_score_exact_example :
    ((member : Bytes)
      → score member
          (remove_range_by_score
            (ScoreBound.exclusive minus_one)
            (ScoreBound.inclusive one)
            three).1
        ≡ filtered
            (λ x.
              not (score_in_bounds x (ScoreBound.exclusive minus_one) (ScoreBound.inclusive one)))
            (score member three))
    × (1
          + len
              (remove_range_by_score
                (ScoreBound.exclusive minus_one)
                (ScoreBound.inclusive one)
                three).1
        ≡ 3)
unfolding add remove_range_by_score get calod.Prelude.keep calod.Prelude.Map.insert
    calod.Prelude.str_eq calod.Store.OrderedSet.insert calod.Store.SortedSet.Keys.key_lt
    calod.Store.F64.total_ltb score_in_bounds calod.Store.F64.f64_lt calod.Store.F64.f64_le
remove_range_by_score_exact_example =
    remove_range_by_score_exact (ScoreBound.exclusive minus_one) (ScoreBound.inclusive one) three
      (reached-IsSynced three_IsReached)

pop_min_exact_example :
    ((pop_min 2 three).0 ++ (pop_min 2 three).1.index ≡ three.index)
    × (length (pop_min 2 three).0 ≡ 2)
unfolding add get calod.Prelude.Map.insert calod.Prelude.str_eq
pop_min_exact_example = pop_min_exact 2 three (reached-IsSynced three_IsReached)

from_map_restores_example : (from_map three.map_of).index ≡ three.index
from_map_restores_example =
    from_map_restores three (reached-IsSynced three_IsReached) three.map_of
      (reached-IsSynced three_IsReached).distinct (λ member. refl)

rank_iff_example :
    (rank bob three ≡ some 1)
    ↔ (elim (get_elem? three.index 1) [ none ↦ none | some k ↦ some k.member ] ≡ some bob)
rank_iff_example = rank_iff three (reached-IsSynced three_IsReached) bob 1

rank_of_bob : rank bob three ≡ some 1
unfolding rank add get calod.Prelude.Map.insert calod.Prelude.str_eq
    calod.Store.SortedSet.count_below calod.Store.OrderedSet.insert
    calod.Store.SortedSet.Keys.key_lt calod.Store.F64.total_ltb calod.Store.SortedSet.Keys.bytes_ltb
rank_of_bob = refl

range_by_index_places_example :
    range_by_index (negsuc 1) (pos 7) true three ≡ reverse (named (negsuc 1) (pos 7) three)
range_by_index_places_example =
    range_by_index_places (negsuc 1) (pos 7) three (reached-IsSynced three_IsReached) true

-- The last two entries, highest first.
last_two : range_by_index (negsuc 1) (pos 7) true three ≡ key two ann ∷ key one bob ∷ []
unfolding range_by_index add get calod.Prelude.Map.insert calod.Prelude.str_eq
    calod.Store.OrderedSet.insert calod.Store.SortedSet.Keys.key_lt calod.Store.F64.total_ltb
last_two = refl

-- The first entry of the reversed range is the lowest one.
reversed_first : range_by_index (pos 0) (pos 0) true three ≡ key minus_one cam ∷ []
unfolding range_by_index add get calod.Prelude.Map.insert calod.Prelude.str_eq
    calod.Store.OrderedSet.insert calod.Store.SortedSet.Keys.key_lt calod.Store.F64.total_ltb
reversed_first = refl

normalize_index_range_places_example :
    is_inside (normalize_index_range (negsuc 1) (pos 7) 3) 2
    ≡ ltb 2 3 && (from_start (negsuc 1) 3 2 && upto_stop (pos 7) 3 2)
normalize_index_range_places_example = normalize_index_range_places (negsuc 1) (pos 7) 3 2

-- An end that is far behind is narrowed, an inverted range is empty.
narrowed : normalize_index_range (negsuc 99) (pos 7) 3 ≡ some (0, 2)
unfolding normalize_index_range
narrowed = refl

inverted : normalize_index_range (pos 2) (pos 1) 3 ≡ none
unfolding normalize_index_range
inverted = refl

score_in_bounds-value_example :
    score_in_bounds one (ScoreBound.exclusive minus_one) (ScoreBound.inclusive one)
    ≡ not (is_nan one)
      && (is_above (ScoreBound.exclusive minus_one) (value one)
          && is_below (ScoreBound.inclusive one) (value one))
score_in_bounds-value_example =
    score_in_bounds-value one (ScoreBound.exclusive minus_one) (ScoreBound.inclusive one)

-- An exclusive bound does not contain itself.
excluded : score_in_bounds one (ScoreBound.exclusive minus_one) (ScoreBound.exclusive one) ≡ false
unfolding score_in_bounds calod.Store.F64.f64_lt
excluded = refl
