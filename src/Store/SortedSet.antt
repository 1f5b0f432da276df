-- ===== src/Store/SortedSet.antt =====
-- Sorted sets (ZSET): calod/crates/calod-core/src/store/sorted_set.rs. A member is a byte string.
pub mod Keys
pub mod Synced
pub mod Removals
pub mod Rebuilds
pub mod Ranks
pub mod Positions
pub mod Windows
pub mod Bounds
pub mod StopBefore
pub mod Reached
pub mod Ranges
use calod.Prelude.{
  ℕ, zero, suc, ◌+◌, ◌-◌, Bool, true, false, not, ◌&&◌, ◌||◌, Option, none, some, List, [], ◌∷◌,
  ◌++◌, map, Str, str_Eq, str_eq, nat_beq, ltb, if◌then◌else◌, keep, length, take, drop, map,
}
use mathlib.Core.List.{reverse}
use calod.Prelude.Map.{Map, get, insert, remove}
use calod.Store.F64.{F64, total_ltb, same_bits}
use calod.Store.OrderedSet
use calod.Store.SortedSet.Keys.{ScoreKey, score_order, key_lt, Bytes}

-- `index` is the ordered index over the entries of `map`.
pub record SortedSetData : Type 0 where
  pub map_of : Map Bytes F64
  pub index : List ScoreKey

abbrev pub new : SortedSetData
new = record { map_of = []; index = [] }

abbrev pub len : SortedSetData → ℕ
len s = length s.map_of

abbrev pub score : Bytes → SortedSetData → Option F64
score member s = get member s.map_of

abbrev pub key : F64 → Bytes → ScoreKey
key score member = record { score = score; member = member }

-- The new set, and whether the member was added.
unfoldable pub add : Bytes → F64 → SortedSetData → SortedSetData × Bool
add member score s =
    let bound = insert member score s.map_of in
    elim (get member s.map_of) [
      | some old ↦ (
        if not (same_bits old score)
            then record {
              map_of = bound;
              index =
                  OrderedSet.insert score_order (key score member)
                    (OrderedSet.remove score_order (key old member) s.index);
            }
            else record s { map_of = bound },
        false,
      )
      | none ↦ (
        record { map_of = bound; index = OrderedSet.insert score_order (key score member) s.index },
        true,
      )
    ]

unfoldable pub remove_entry : ScoreKey → SortedSetData → SortedSetData
remove_entry k s = record {
  map_of = remove k.member s.map_of;
  index = OrderedSet.remove score_order k s.index;
}

unfoldable pub remove_member : Bytes → SortedSetData → SortedSetData × Bool
unfolding remove_entry
remove_member member s = elim (get member s.map_of) [
  | some score ↦ (remove_entry (key score member) s, true)
  | none ↦ (s, false)
]

-- `index.range(..&key).count()`: the elements before the first that is not below the key.
unfoldable pub count_below : ScoreKey → List ScoreKey → ℕ
count_below k [] = 0
count_below k (x ∷ xs) = let rest = count_below k xs in if key_lt x k then suc rest else 0

unfoldable pub rank : Bytes → SortedSetData → Option ℕ
rank member s = elim (get member s.map_of) [
  | none ↦ none
  | some score ↦ some (count_below (key score member) s.index)
]

unfoldable pub rev_rank : Bytes → SortedSetData → Option ℕ
rev_rank member s = elim (rank member s) [ none ↦ none | some asc ↦ some (len s - 1 - asc) ]

-- The loop over the victims of a removal.
unfoldable pub remove_all : List ScoreKey → SortedSetData → SortedSetData
remove_all [] s = s
remove_all (k ∷ ks) s = remove_all ks (remove_entry k s)

-- The victims in order, and the set without them.
unfoldable pub pop_min : ℕ → SortedSetData → List ScoreKey × SortedSetData
pop_min count s = let victims = take count s.index in (victims, remove_all victims s)

unfoldable pub pop_max : ℕ → SortedSetData → List ScoreKey × SortedSetData
pop_max count s = let victims = take count (reverse s.index) in (victims, remove_all victims s)

-- `rebuild_index`, over the entries of the map in the order of its iteration.
unfoldable pub index_of : Map Bytes F64 → List ScoreKey → List ScoreKey
index_of [] index = index
index_of ((member, score) ∷ entries) index =
    index_of entries (OrderedSet.insert score_order (key score member) index)

unfoldable pub from_map : Map Bytes F64 → SortedSetData
from_map entries = record { map_of = entries; index = index_of entries [] }
