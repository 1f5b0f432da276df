-- ===== src/Store/SortedSet/Positions.antt =====
-- About the positions that the two ends of a range name.
use calod.Prelude.{
  ℕ, suc, ◌+◌, ◌-◌, ◌≤◌, ◌<◌, ◌≡◌, Bool, false, ◌&&◌, Option, none, some, arith, ltb, leb,
}
use calod.Prelude.Int.{ℤ, pos, negsuc, ◌+ℤ◌, ◌-ℤ◌}
use calod.Store.SortedSet.Ranges.{normalize_index_range}

-- Place r of n is at or behind the start. A negative end counts from behind: -1 is the last place.
abbrev pub from_start : ℤ → ℕ → ℕ → Bool
from_start (pos a) n r = leb a r
from_start (negsuc a) n r = leb n (r + suc a)

-- Place r of n is at or before the stop. A stop before the first place is the first place.
abbrev pub upto_stop : ℤ → ℕ → ℕ → Bool
upto_stop (pos b) n r = leb r b
upto_stop (negsuc b) n r = leb r (n - suc b)

abbrev pub is_inside : Option (ℕ × ℕ) → ℕ → Bool
is_inside none r = false
is_inside (some (lo, hi)) r = leb lo r && leb r hi

-- Positions that are answered are places of the index, in order.
pub normalize_index_range-bounds :
    (start stop : ℤ) (n lo hi : ℕ)
    → normalize_index_range start stop n ≡ some (lo, hi)
    → (lo ≤ hi) × (hi < n)
unfolding normalize_index_range ◌+ℤ◌ ◌-ℤ◌
normalize_index_range-bounds (pos a) (pos b) n lo hi h = ground arith
normalize_index_range-bounds (pos a) (negsuc b) n lo hi h = ground arith
normalize_index_range-bounds (negsuc a) (pos b) n lo hi h = ground arith
normalize_index_range-bounds (negsuc a) (negsuc b) n lo hi h = ground arith

-- For all ends, of any sign and size, the positions that a range of n entries is narrowed to are exactly
-- the places below n that are at or behind the start and at or before the stop, where a negative end
-- counts from behind the last place, and a stop before the first place is the first place.
pub normalize_index_range_places :
    (start stop : ℤ) (n r : ℕ)
    → is_inside (normalize_index_range start stop n) r
      ≡ ltb r n && (from_start start n r && upto_stop stop n r)
unfolding normalize_index_range ◌+ℤ◌ ◌-ℤ◌
normalize_index_range_places (pos a) (pos b) n r = ground arith
normalize_index_range_places (pos a) (negsuc b) n r = ground arith
normalize_index_range_places (negsuc a) (pos b) n r = ground arith
normalize_index_range_places (negsuc a) (negsuc b) n r = ground arith
