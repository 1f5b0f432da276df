-- ===== src/Wal/Directory/Listing.antt =====
-- About the names of segment files and the listing of a directory.
use calod.Prelude.{
  ℕ, suc, ◌-◌, ◌^◌, ◌<◌, ◌≤◌, ◌≡◌, ◌≢◌, refl, ap, false, none, some, List, [], ◌∷◌, ◌++◌, map,
  arith, Str, str_eq, str_eq_iff, str_Eq, str_eq_refl, length, length-append, Bool-cases, inl, inr,
}
use calod.Prelude.Map.{get, insert}
use calod.Prelude.Cuts.{take-append_self, drop-append_self}
use calod.Prelude.Text.{zero_padded, strip_prefix, strip_suffix}
use calod.Prelude.Text.Decimal.{parse_u64-zero_padded}
use calod.Wal.Format.{Bytes}
use calod.Wal.Directory.{
  Directory, segment_path, segment_suffix, parse_segment_file_name, parse_stem, insert_by_id,
  sort_by_id, segments_of, list_segments, content,
}

strip_suffix-append : (suffix s : Str) → strip_suffix suffix (s ++ suffix) ≡ some s
unfolding strip_suffix
strip_suffix-append suffix s =
    let front : length (s ++ suffix) - length suffix ≡ length s =
      omega (arith, length-append s suffix) in
    rw (front, drop-append_self s suffix, take-append_self s suffix, str_eq_refl suffix)
      (ground (arith, length-append s suffix))

parse_stem-zero_padded :
    (id : ℕ) → id < 2 ^ 64 → parse_stem (zero_padded 8 id ++ segment_suffix) ≡ some id
unfolding parse_stem
parse_stem-zero_padded id h =
    rw (strip_suffix-append segment_suffix (zero_padded 8 id), parse_stem)
      (parse_u64-zero_padded 8 id h)

-- A segment's name tells its id.
pub parse_segment_file_name-segment_path :
    (id : ℕ) → id < 2 ^ 64 → parse_segment_file_name (segment_path id) ≡ some id
unfolding parse_segment_file_name segment_path strip_prefix str_eq
parse_segment_file_name-segment_path id h = parse_stem-zero_padded id h

segment_path_ne :
    (i j : ℕ) → i < 2 ^ 64 → j < 2 ^ 64 → i ≢ j → str_eq (segment_path i) (segment_path j) ≡ false
segment_path_ne i j hi hj apart = elim (Bool-cases (str_eq (segment_path i) (segment_path j))) [
  | inr e ↦ e
  | inl e ↦
      let same : segment_path i ≡ segment_path j = (str_eq_iff _ _).0 e in
      absurd (
        apart (
          cc (
            parse_segment_file_name-segment_path i hi,
            parse_segment_file_name-segment_path j hj,
            same,
          )))
]

-- A directory that holds these segments and nothing else.
unfoldable pub laid_out : List (ℕ × Bytes) → Directory
laid_out = map (λ s. (segment_path s.0, s.1))

abbrev names : List (ℕ × Bytes) → List (ℕ × Str)
names = map (λ s. (s.0, segment_path s.0))

-- The ids ascend, from `low` on, and fit a `u64`.
pub data IsAscending : ℕ → List (ℕ × Bytes) → Type 0 where
  end : {low : ℕ} → IsAscending low []
  step :
      {low id : ℕ} {bytes : Bytes} {segments : List (ℕ × Bytes)}
      → low ≤ id
      → id < 2 ^ 64
      → IsAscending (suc id) segments
      → IsAscending low ((id, bytes) ∷ segments)

segments_of-laid_out :
    (segments : List (ℕ × Bytes)) {low : ℕ}
    → IsAscending low segments
    → segments_of (laid_out segments) ≡ names segments
unfolding segments_of laid_out
segments_of-laid_out [] end = refl
segments_of-laid_out ((id, bytes) ∷ segments) (step above fits rest) =
    rw (
      parse_segment_file_name-segment_path id fits,
      segments_of,
      segments_of-laid_out segments rest,
    )

insert_by_id-names :
    (id : ℕ) (name : Str) (segments : List (ℕ × Bytes))
    → IsAscending (suc id) segments
    → insert_by_id (id, name) (names segments) ≡ (id, name) ∷ names segments
unfolding insert_by_id
insert_by_id-names id name [] a = refl
insert_by_id-names id name ((j, bytes) ∷ segments) (step above fits rest) = ground arith

sort_by_id-names :
    (segments : List (ℕ × Bytes)) {low : ℕ}
    → IsAscending low segments
    → sort_by_id (names segments) ≡ names segments
unfolding sort_by_id
sort_by_id-names [] a = refl
sort_by_id-names ((id, bytes) ∷ segments) (step above fits rest) =
    rw (sort_by_id-names segments rest) (insert_by_id-names id (segment_path id) segments rest)

pub list_segments-laid_out :
    (segments : List (ℕ × Bytes)) {low : ℕ}
    → IsAscending low segments
    → list_segments (laid_out segments) ≡ map (λ s. (s.0, segment_path s.0)) segments
unfolding list_segments
list_segments-laid_out segments a =
    rw (segments_of-laid_out segments a) (sort_by_id-names segments a)

module _ (id : ℕ) (bytes : Bytes) (back : List (ℕ × Bytes)) where
  IsAscending-le :
      (front : List (ℕ × Bytes)) {low : ℕ}
      → IsAscending low (front ++ (id, bytes) ∷ back)
      → low ≤ id
  IsAscending-le [] (step above fits rest) = above
  IsAscending-le ((j, b) ∷ front) (step above fits rest) = omega (arith, IsAscending-le front rest)

  pub IsAscending-fits :
      (front : List (ℕ × Bytes)) {low : ℕ}
      → IsAscending low (front ++ (id, bytes) ∷ back)
      → id < 2 ^ 64
  IsAscending-fits [] (step above fits rest) = fits
  IsAscending-fits ((j, b) ∷ front) (step above fits rest) = IsAscending-fits front rest

  -- Another name stands before a segment.
  segment_path_before :
      (j : ℕ) (front : List (ℕ × Bytes))
      → j < 2 ^ 64
      → IsAscending (suc j) (front ++ (id, bytes) ∷ back)
      → str_eq (segment_path j) (segment_path id) ≡ false
  segment_path_before j front small a =
      segment_path_ne j id small (IsAscending-fits front a)
        (λ e. absurd (omega (arith, IsAscending-le front a)))

-- What a segment holds does not matter.
pub IsAscending_content :
    (id : ℕ) (bytes bytes' : Bytes) (front back : List (ℕ × Bytes)) {low : ℕ}
    → IsAscending low (front ++ (id, bytes) ∷ back)
    → IsAscending low (front ++ (id, bytes') ∷ back)
IsAscending_content id bytes bytes' [] back (step above fits rest) = step above fits rest
IsAscending_content id bytes bytes' ((j, b) ∷ front) back (step above fits rest) =
    step above fits (IsAscending_content id bytes bytes' front back rest)

-- Reading and overwriting a segment of a directory, and adding one at its end.
module _ (id : ℕ) (bytes : Bytes) where
  pub get-laid_out :
      (front back : List (ℕ × Bytes)) {low : ℕ}
      → IsAscending low (front ++ (id, bytes) ∷ back)
      → get (segment_path id) (laid_out (front ++ (id, bytes) ∷ back)) ≡ some bytes
  unfolding get laid_out
  get-laid_out [] back a = rw (str_eq_refl (segment_path id))
  get-laid_out ((j, b) ∷ front) back (step above fits rest) =
      rw (segment_path_before id bytes back j front fits rest) (get-laid_out front back rest)

  pub content-laid_out :
      (front back : List (ℕ × Bytes)) {low : ℕ}
      → IsAscending low (front ++ (id, bytes) ∷ back)
      → content (segment_path id) (laid_out (front ++ (id, bytes) ∷ back)) ≡ bytes
  unfolding content
  content-laid_out front back a = rw (get-laid_out front back a, content)

  pub insert-laid_out :
      (bytes' : Bytes) (front back : List (ℕ × Bytes)) {low : ℕ}
      → IsAscending low (front ++ (id, bytes) ∷ back)
      → insert (segment_path id) bytes' (laid_out (front ++ (id, bytes) ∷ back))
        ≡ laid_out (front ++ (id, bytes') ∷ back)
  unfolding insert laid_out
  insert-laid_out bytes' [] back a = rw (str_eq_refl (segment_path id))
  insert-laid_out bytes' ((j, b) ∷ front) back (step above fits rest) =
      rw (segment_path_before id bytes back j front fits rest)
        (ap (◌∷◌ (segment_path j, b)) (insert-laid_out bytes' front back rest))

  -- A new segment.
  pub insert-laid_out_new :
      (front : List (ℕ × Bytes)) {low : ℕ}
      → IsAscending low (front ++ (id, bytes) ∷ [])
      → insert (segment_path id) bytes (laid_out front) ≡ laid_out (front ++ (id, bytes) ∷ [])
  unfolding insert laid_out
  insert-laid_out_new [] a = refl
  insert-laid_out_new ((j, b) ∷ front) (step above fits rest) =
      rw (segment_path_before id bytes [] j front fits rest)
        (ap (◌∷◌ (segment_path j, b)) (insert-laid_out_new front rest))

  pub get-laid_out_new :
      (front : List (ℕ × Bytes)) {low : ℕ}
      → IsAscending low (front ++ (id, bytes) ∷ [])
      → get (segment_path id) (laid_out front) ≡ none
  unfolding get laid_out
  get-laid_out_new [] a = refl
  get-laid_out_new ((j, b) ∷ front) (step above fits rest) =
      rw (segment_path_before id bytes [] j front fits rest) (get-laid_out_new front rest)

  -- One more segment after the last.
  pub IsAscending-extend :
      (bytes' : Bytes) (front : List (ℕ × Bytes)) {low : ℕ}
      → suc id < 2 ^ 64
      → IsAscending low (front ++ (id, bytes) ∷ [])
      → IsAscending low ((front ++ (id, bytes) ∷ []) ++ (suc id, bytes') ∷ [])
  IsAscending-extend bytes' [] small (step above fits rest) =
      step above fits (step (omega arith) small end)
  IsAscending-extend bytes' ((j, b) ∷ front) small (step above fits rest) =
      step above fits (IsAscending-extend bytes' front small rest)
