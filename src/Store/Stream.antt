-- ===== src/Store/Stream.antt =====
-- Streams: calod/crates/calod-core/src/store/stream.rs. `u64` counters wrap around.
pub mod Ids
pub mod Groups
pub mod Readers
pub mod Claims
pub mod Owners
pub mod Joins
pub mod Keeps
pub mod Claimed
pub mod Delivered
pub mod Sound
pub mod Settled
pub mod Ascending
pub mod Histories
pub mod Appends
pub mod SetBack
pub mod Shared
mod Tests
use calod.Prelude.{
  ℕ, zero, suc, ◌+◌, ◌-◌, ◌%◌, ◌⊎◌, inl, inr, Bool, true, false, not, ◌&&◌, ◌||◌, Option, none,
  some, List, [], ◌∷◌, map, Str, str_Eq, nat_beq, ltb, leb, if◌then◌else◌, keep, length, take, drop,
}
use mathlib.Core.List.{reverse}
use calod.Prelude.Int.{two64}
use calod.Prelude.Map.{Map, get, insert, remove}
use calod.Store.Stream.Ids.{StreamId, id_Eq, id_lt, id_eq, min_id, Tree, put, Fields, Entry}
use calod.Store.Stream.Groups.{ConsumerGroup}

pub data StreamError : Type 0 where
  id_too_small zero_id : StreamError

pub record StreamData : Type 0 where
  pub entries : Tree Fields
  pub last_id : StreamId
  pub max_deleted_id : StreamId
  pub entries_added : ℕ
  pub groups : Map Str ConsumerGroup

abbrev pub new : StreamData
new = record {
  entries = [];
  last_id = min_id;
  max_deleted_id = min_id;
  entries_added = 0;
  groups = [];
}

-- `saturating_add`
abbrev pub saturating_suc : ℕ → ℕ
saturating_suc n = if ltb (n + 1) two64 then n + 1 else two64 - 1

unfoldable pub next_auto_id : ℕ → StreamData → StreamId
next_auto_id now_ms s =
    if ltb s.last_id.ms now_ms
    then record { ms = now_ms; seq = 0 }
    else record { ms = s.last_id.ms; seq = saturating_suc s.last_id.seq }

-- The answer, and the stream after it.
unfoldable pub add : StreamId → Fields → StreamData → (StreamError ⊎ StreamId) × StreamData
add id fields s =
    if id_eq id min_id
    then (inl zero_id, s)
    else if not (id_lt s.last_id id)
    then (inl id_too_small, s)
    else (
      inr id,
      record s {
        entries = put id fields s.entries;
        last_id = id;
        entries_added = (s.entries_added + 1) % two64;
      },
    )

-- `collect_limited`
abbrev pub collect_limited : List Entry → Option ℕ → List Entry
collect_limited es none = es
collect_limited es (some n) = take n es

abbrev pub within : StreamId → StreamId → Entry → Bool
within start end' e = not (id_lt e.0 start) && not (id_lt end' e.0)

unfoldable pub range : StreamId → StreamId → Bool → Option ℕ → StreamData → List Entry
range start end' rev count s =
    if id_lt end' start
    then []
    else if rev
    then collect_limited (reverse (keep (within start end') s.entries)) count
    else collect_limited (keep (within start end') s.entries) count

unfoldable pub read_after : StreamId → Option ℕ → StreamData → List Entry
read_after after count s = collect_limited (keep (λ e. id_lt after e.0) s.entries) count

abbrev pub larger : StreamId → StreamId → StreamId
larger id max = if id_lt max id then id else max

-- One round of the loop of `delete`.
unfoldable pub delete_one : StreamId → ℕ × StreamData → ℕ × StreamData
delete_one id (removed, s) = elim (get id s.entries) [
  | none ↦ (removed, s)
  | some fields ↦ (
    removed + 1,
    record s { entries = remove id s.entries; max_deleted_id = larger id s.max_deleted_id },
  )
]

unfoldable pub delete_from : List StreamId → ℕ × StreamData → ℕ × StreamData
delete_from [] state = state
delete_from (id ∷ ids) state = delete_from ids (delete_one id state)

unfoldable pub delete : List StreamId → StreamData → ℕ × StreamData
delete ids s = delete_from ids (0, s)

unfoldable pub remove_ids {ℓ} : {V : Type ℓ} → List StreamId → Tree V → Tree V
remove_ids [] t = t
remove_ids (id ∷ ids) t = remove_ids ids (remove id t)

abbrev pub last_of : List StreamId → Option StreamId
last_of [] = none
last_of (id ∷ ids) = elim (last_of ids) [ none ↦ some id | some last ↦ some last ]

unfoldable pub trim_maxlen : ℕ → StreamData → ℕ × StreamData
trim_maxlen maxlen s =
    let victims = take (length s.entries - maxlen) (map (λ e. e.0) s.entries) in
    if leb (length s.entries) maxlen then (0, s) else (
      length victims,
      record s {
        entries = remove_ids victims s.entries;
        max_deleted_id = elim (last_of victims) [
          | none ↦ s.max_deleted_id
          | some largest ↦ larger largest s.max_deleted_id
        ];
      },
    )

unfoldable pub set_last_id : StreamId → Option ℕ → Option StreamId → StreamData → StreamData
set_last_id id entries_added max_deleted s = record s {
  last_id = id;
  entries_added = elim entries_added [ none ↦ s.entries_added | some n ↦ n ];
  max_deleted_id = elim max_deleted [ none ↦ s.max_deleted_id | some md ↦ md ];
}
