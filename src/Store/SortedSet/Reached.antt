-- ===== src/Store/SortedSet/Reached.antt =====
-- The sorted sets that sequences of operations lead to.
use calod.Prelude.{ℕ, str_Eq}
use calod.Prelude.Int.{ℤ}
use calod.Prelude.Map.{Map}
use calod.Prelude.Map.Distinct.{IsDistinct}
use calod.Store.F64.{F64}
use calod.Store.SortedSet.{SortedSetData, new, add, remove_member, pop_min, pop_max, from_map}
use calod.Store.SortedSet.Keys.{Bytes}
use calod.Store.SortedSet.Ranges.{
  ScoreBound, LexBound, remove_range_by_rank, remove_range_by_score, remove_range_by_lex,
}
use calod.Store.SortedSet.Synced.{IsSynced, new-IsSynced, add-IsSynced, remove_member-IsSynced}
use calod.Store.SortedSet.Removals.{
  pop_min-IsSynced, pop_max-IsSynced, remove_range_by_rank-IsSynced, remove_range_by_score-IsSynced,
  remove_range_by_lex-IsSynced,
}
use calod.Store.SortedSet.Rebuilds.{from_map-IsSynced}

-- One operation that changes a set.
pub data Step (s : SortedSetData) : SortedSetData → Type 0 where
  adds : (member : Bytes) (score : F64) → Step s (add member score s).0
  removes : (member : Bytes) → Step s (remove_member member s).0
  pops_min : (count : ℕ) → Step s (pop_min count s).1
  pops_max : (count : ℕ) → Step s (pop_max count s).1
  cuts_rank : (start stop : ℤ) → Step s (remove_range_by_rank start stop s).1
  cuts_score : (min max : ScoreBound) → Step s (remove_range_by_score min max s).1
  cuts_lex : (min max : LexBound) → Step s (remove_range_by_lex min max s).1

-- A set starts empty or with the map of a stored one, the keys of which are distinct.
pub data IsReached : SortedSetData → Type 0 where
  created : IsReached new
  loaded : {entries : Map Bytes F64} → IsDistinct entries → IsReached (from_map entries)
  after : {s t : SortedSetData} → IsReached s → Step s t → IsReached t

Step-IsSynced : {s t : SortedSetData} → Step s t → IsSynced s → IsSynced t
Step-IsSynced {s} (adds member score) synced = add-IsSynced member score s synced
Step-IsSynced {s} (removes member) synced = remove_member-IsSynced member s synced
Step-IsSynced {s} (pops_min count) synced = pop_min-IsSynced s synced count
Step-IsSynced {s} (pops_max count) synced = pop_max-IsSynced s synced count
Step-IsSynced {s} (cuts_rank start stop) synced = remove_range_by_rank-IsSynced s synced start stop
Step-IsSynced {s} (cuts_score min max) synced = remove_range_by_score-IsSynced s synced min max
Step-IsSynced {s} (cuts_lex min max) synced = remove_range_by_lex-IsSynced s synced min max

-- In every set that is reached by operations from the empty set or from a stored one, the index
-- ascends by score and member without repetitions, holds exactly the map's bindings, and both have
-- the same number of entries.
pub reached-IsSynced : {s : SortedSetData} → IsReached s → IsSynced s
reached-IsSynced created = new-IsSynced
reached-IsSynced (loaded distinct) = from_map-IsSynced distinct
reached-IsSynced (after reached step) = Step-IsSynced step (reached-IsSynced reached)
