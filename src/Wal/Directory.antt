-- ===== src/Wal/Directory.antt =====
-- The segment files of a directory: calod/crates/calod-storage/src/wal.rs.
pub mod Listing
use calod.Prelude.{
  ℕ, true, false, Option, none, some, List, [], ◌∷◌, ◌++◌, Str, str, leb, str_Eq, if◌then◌else◌,
}
use calod.Prelude.Map.{Map, get}
use calod.Prelude.Text.{zero_padded, strip_prefix, strip_suffix, parse_u64}
use calod.Wal.Format.{Bytes}

abbrev pub segment_prefix : Str
segment_prefix = b'w' ∷ b'a' ∷ b'l' ∷ b'-' ∷ []

abbrev pub segment_suffix : Str
segment_suffix = b'.' ∷ b'l' ∷ b'o' ∷ b'g' ∷ []

-- Files by name, with what they hold.
abbrev pub Directory : Type 0
Directory = Map Str Bytes

-- The name of a segment file, which stands for its path.
unfoldable pub segment_path : ℕ → Str
unfolding zero_padded
segment_path segment_id = segment_prefix ++ zero_padded 8 segment_id ++ segment_suffix

unfoldable pub parse_stem : Str → Option ℕ
parse_stem name = elim (strip_suffix segment_suffix name) [
  | none ↦ none
  | some stem ↦ parse_u64 stem
]

unfoldable pub parse_segment_file_name : Str → Option ℕ
parse_segment_file_name name = elim (strip_prefix segment_prefix name) [
  | none ↦ none
  | some rest ↦ parse_stem rest
]

-- `sort_by_key(|(id, _)| *id)`: a stable sort.
unfoldable pub insert_by_id : ℕ × Str → List (ℕ × Str) → List (ℕ × Str)
insert_by_id x [] = x ∷ []
insert_by_id x (y ∷ ys) = if leb x.0 y.0 then x ∷ y ∷ ys else y ∷ insert_by_id x ys

unfoldable pub sort_by_id : List (ℕ × Str) → List (ℕ × Str)
sort_by_id [] = []
sort_by_id (x ∷ xs) = insert_by_id x (sort_by_id xs)

unfoldable pub segments_of : Directory → List (ℕ × Str)
segments_of [] = []
segments_of ((name, content) ∷ files) =
    let rest = segments_of files in
    elim (parse_segment_file_name name) [ none ↦ rest | some id ↦ (id, name) ∷ rest ]

unfoldable pub list_segments : Directory → List (ℕ × Str)
list_segments dir = sort_by_id (segments_of dir)

-- `fs::read(path)` of a file that is there.
unfoldable pub content : Str → Directory → Bytes
content path dir = elim (get path dir) [ none ↦ [] | some bytes ↦ bytes ]
