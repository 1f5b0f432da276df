-- ===== src/Store/SortedSet/Rebuilds.antt =====
-- About rebuilding the index from the map.
use native.Mathlib.Nat.{add-zero}
use calod.Prelude.{
  ◌+◌, ◌≡◌, refl, sym, ap, ◌∙◌, Bool, true, false, ◌||◌, Option, none, some, List, [], ◌∷◌, arith,
  length, str_Eq, str_eq_iff,
}
use calod.Prelude.Map.{Map, get}
use calod.Prelude.Map.Distinct.{IsDistinct, empty, bind}
use calod.Store.F64.{F64, same_bits, same_bits_iff}
use calod.Store.OrderedSet
use calod.Store.OrderedSet.{IsSorted, nil, contains, same}
use calod.Store.OrderedSet.Laws
use calod.Store.OrderedSet.Parts
use calod.Store.SortedSet.{SortedSetData, key, index_of, from_map}
use calod.Store.SortedSet.Keys.{ScoreKey, score_order, Bytes}
use calod.Store.SortedSet.Synced.{IsSynced, holds, same_parts}

nothing : (k : ScoreKey) → contains score_order k [] ≡ false
unfolding contains
nothing k = refl

index_of-IsSorted :
    (m : Map Bytes F64) (index : List ScoreKey)
    → IsSorted score_order index
    → IsSorted score_order (index_of m index)
unfolding index_of
index_of-IsSorted [] index sorted = sorted
index_of-IsSorted ((member, score) ∷ m) index sorted =
    index_of-IsSorted m (OrderedSet.insert score_order (key score member) index)
      (Laws.insert-IsSorted score_order (key score member) sorted)

index_of-contains :
    (k : ScoreKey) {m : Map Bytes F64} (index : List ScoreKey)
    → IsDistinct m
    → contains score_order k (index_of m index) ≡ contains score_order k index || holds k m
unfolding index_of get
index_of-contains k index empty = ground arith
index_of-contains k index (bind {k = member} {v = score} {m = m} fresh distinct) = ground (
  arith,
  index_of-contains k (OrderedSet.insert score_order (key score member) index) distinct,
  Laws.contains-insert score_order (key score member) k index,
  same_parts (key score member) k,
  str_eq_iff member k.member,
  fresh,
)

-- None of the entries stands in the index.
abbrev Free : Map Bytes F64 → List ScoreKey → Type 0
Free m index = (k : ScoreKey) → holds k m ≡ true → contains score_order k index ≡ false

module _ (member : Bytes) (score : F64) (m : Map Bytes F64) (index : List ScoreKey)
    (fresh : get member m ≡ none) (free : Free ((member, score) ∷ m) index) where
  free_head : contains score_order (key score member) index ≡ false
  unfolding get
  free_head =
      free (key score member) (ground (arith, str_eq_iff member member, same_bits_iff score score))

  Free-insert : Free m (OrderedSet.insert score_order (key score member) index)
  unfolding get
  Free-insert k h = ground (
    arith,
    h,
    fresh,
    free k,
    Laws.contains-insert score_order (key score member) k index,
    same_parts (key score member) k,
    str_eq_iff member k.member,
  )

index_of-length :
    {m : Map Bytes F64} (index : List ScoreKey)
    → IsDistinct m
    → Free m index
    → length (index_of m index) ≡ length m + length index
unfolding index_of
index_of-length index empty free = omega arith
index_of-length index (bind {k = member} {v = score} {m = m} fresh distinct) free = omega (
  arith,
  index_of-length (OrderedSet.insert score_order (key score member) index) distinct
      (Free-insert member score m index fresh free),
  Laws.length-insert score_order (key score member) index
      (free_head member score m index fresh free),
)

pub from_map-IsSynced : {m : Map Bytes F64} → IsDistinct m → IsSynced (from_map m)
unfolding from_map
from_map-IsSynced {m} distinct = record {
  sorted = index_of-IsSorted m [] nil;
  agree = λ k. ground (arith, index_of-contains k [] distinct, nothing k);
  distinct = distinct;
  lengths = index_of-length [] distinct (λ k h. nothing k) ∙ add-zero (length m);
}

abbrev holds_at : ScoreKey → Option F64 → Bool
holds_at k bound = elim bound [ none ↦ false | some score ↦ same_bits score k.score ]

holds-from_map : (k : ScoreKey) (m : Map Bytes F64) → holds k (from_map m).map_of ≡ holds k m
unfolding from_map
holds-from_map k m = refl

-- Only the map is stored. From any map with the same bindings, in whatever order they are read, the
-- index is rebuilt as it was.
pub from_map_restores :
    (s : SortedSetData)
    → IsSynced s
    → (m : Map Bytes F64) → IsDistinct m
    → ((member : Bytes) → get member m ≡ get member s.map_of)
    → (from_map m).index ≡ s.index
from_map_restores s synced m distinct same_bindings =
    let rebuilt = from_map-IsSynced distinct in
    Parts.sorted_unique score_order rebuilt.sorted synced.sorted (λ k.
      rebuilt.agree k
      ∙ holds-from_map k m
      ∙ ap (holds_at k) (same_bindings k.member)
      ∙ sym (synced.agree k))
