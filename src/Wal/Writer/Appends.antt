-- ===== src/Wal/Writer/Appends.antt =====
-- About appends that are acknowledged, and what is replayed after them.
use mathlib.Core.List.{append_assoc, append-nil}
use mathlib.Core.Path.{ap₂}
use calod.Prelude.{
  ℕ, suc, ◌+◌, ◌<◌, ◌^◌, ◌≡◌, refl, sym, ap, ◌∙◌, true, false, List, [], ◌∷◌, ◌++◌, arith, length,
  length-append, str_Eq,
}
use calod.Prelude.Map.{insert}
use calod.Wal.Format.{Bytes, Crc32c, WalPosition}
use calod.Wal.Scan.Written.{Entry, encode_entry, encode_all, Fits, none_left, one_more}
use calod.Wal.Directory.{segment_path}
use calod.Wal.Directory.Listing.{
  laid_out, IsAscending, content-laid_out, insert-laid_out, insert-laid_out_new, get-laid_out_new,
  IsAscending_content, IsAscending-extend,
}
use calod.Wal.Recover.{ok}
use calod.Wal.Recover.Segments.{Segment, written, AllFit}
use calod.Wal.Recover.Crash.{written-last, AllFit-last}
use calod.Wal.Writer.{WriterState, Disk, add_bytes, roll_segment, write_record, is_absent}

-- What was written: the sealed segments, and the entries of the open one.
pub record Log : Type 0 where
  pub sealed : List Segment
  pub id : ℕ
  pub entries : List Entry

abbrev pub segments : Log → List Segment
segments l = l.sealed ++ (l.id, l.entries) ∷ []

-- The files of a log.
abbrev pub files : Crc32c → Log → List (ℕ × Bytes)
files c l = written c l.sealed ++ (l.id, encode_all c l.entries) ∷ []

-- The writer's state and the files agree with the log.
pub record IsWriting (c : Crc32c) (s : WriterState) (l : Log) : Type 0 where
  pub dir_files : s.dir ≡ laid_out (files c l)
  pub file_last : s.file ≡ segment_path l.id
  pub id_last : s.segment_id ≡ l.id
  pub len_last : s.segment_len ≡ length (encode_all c l.entries)
  pub sealed_fit : AllFit l.sealed
  pub entries_fit : Fits l.entries
  pub ascending : IsAscending 0 (files c l)

pub encode_all-last :
    (c : Crc32c) (es : List Entry) (e : Entry)
    → encode_all c (es ++ e ∷ []) ≡ encode_all c es ++ encode_entry c e
unfolding encode_all
encode_all-last c [] e = append-nil (encode_entry c e)
encode_all-last c (x ∷ es) e =
    ap (λ bytes. encode_entry c x ++ bytes) (encode_all-last c es e)
    ∙ sym (append_assoc (encode_entry c x) (encode_all c es) (encode_entry c e))

Fits-last :
    {es : List Entry} (e : Entry) → Fits es → length e.payload < 2 ^ 32 → Fits (es ++ e ∷ [])
Fits-last e none_left small = one_more small none_left
Fits-last e (one_more first fit) small = one_more first (Fits-last e fit small)

abbrev pub add_entry : Entry → Log → Log
add_entry e l = record l { entries = l.entries ++ e ∷ [] }

abbrev pub next_segment : Log → Log
next_segment l = record { sealed = segments l; id = suc l.id; entries = [] }

abbrev pub position_in : Crc32c → Log → WalPosition
position_in c l = record { segment_id = l.id; offset = length (encode_all c l.entries) }

add_bytes-files :
    (c : Crc32c) (e : Entry) (l : Log)
    → IsAscending 0 (files c l)
    → add_bytes (segment_path l.id) (encode_entry c e) (laid_out (files c l))
      ≡ laid_out (files c (add_entry e l))
unfolding add_bytes
add_bytes-files c e l a =
    let bytes = encode_all c l.entries in
    let front = written c l.sealed in
    rw (content-laid_out l.id bytes front [] a, encode_all-last c l.entries e)
      (insert-laid_out l.id bytes (bytes ++ encode_entry c e) front [] a)

pub insert-files :
    (c : Crc32c) (l : Log)
    → suc l.id < 2 ^ 64
    → IsAscending 0 (files c l)
    → (is_absent (segment_path (suc l.id)) (laid_out (files c l)) ≡ true)
      × (insert (segment_path (suc l.id)) [] (laid_out (files c l))
          ≡ laid_out (files c (next_segment l)))
      × IsAscending 0 (files c (next_segment l))
unfolding encode_all
insert-files c l room a =
    let more : IsAscending 0 (files c l ++ (suc l.id, []) ∷ []) =
      IsAscending-extend l.id (encode_all c l.entries) [] (written c l.sealed) room a in
    let same : written c (segments l) ≡ files c l = written-last c l.sealed l.id l.entries in
    (
      rw (get-laid_out_new (suc l.id) [] (files c l) more, is_absent),
      rw same (insert-laid_out_new (suc l.id) [] (files c l) more),
      rw same more,
    )

module _ (disk : Disk) (s : WriterState) where
  write_record-ok :
      (encoded : Bytes) (position : WalPosition)
      → (write_record disk encoded s).1 ≡ ok position
      → write_record disk encoded s ≡ (
        record s {
          dir = add_bytes s.file encoded s.dir;
          segment_len = s.segment_len + length encoded;
          dirty = true;
        },
        ok (record { segment_id = s.segment_id; offset = s.segment_len }),
      )
  unfolding write_record
  write_record-ok encoded position acked = ground arith

  roll_segment-ok :
      (u : Unit {0})
      → (roll_segment disk s).1 ≡ ok u
      → roll_segment disk s ≡ (
        record s {
          dir = insert (segment_path (s.segment_id + 1)) [] s.dir;
          file = segment_path (s.segment_id + 1);
          segment_id = s.segment_id + 1;
          segment_len = 0;
          dirty = false;
          active_segment = s.segment_id + 1;
        },
        ok tt,
      )
  unfolding roll_segment
  roll_segment-ok u rolled = ground arith

module _ (c : Crc32c) (disk : Disk) (s : WriterState) (l : Log) (writing : IsWriting c s l) where
  pub write_record-IsWriting :
      (e : Entry) (position : WalPosition)
      → length e.payload < 2 ^ 32
      → (write_record disk (encode_entry c e) s).1 ≡ ok position
      → (position ≡ position_in c l)
        × IsWriting c (write_record disk (encode_entry c e) s).0 (add_entry e l)
  write_record-IsWriting e position small acked =
      let encoded = encode_entry c e in
      let done = write_record-ok disk s encoded position acked in
      rw done (
        cc (writing.id_last, writing.len_last, done, acked),
        record {
          dir_files =
              ap₂ (λ file dir. add_bytes file encoded dir) writing.file_last writing.dir_files
              ∙ add_bytes-files c e l writing.ascending;
          file_last = writing.file_last;
          id_last = writing.id_last;
          len_last = omega (
            arith,
            ap length (encode_all-last c l.entries e),
            writing.len_last,
            length-append (encode_all c l.entries) encoded,
          );
          sealed_fit = writing.sealed_fit;
          entries_fit = Fits-last e writing.entries_fit small;
          ascending = IsAscending_content l.id _ _ (written c l.sealed) [] writing.ascending;
        },
      )

  pub roll_segment-IsWriting :
      (u : Unit {0})
      → suc l.id < 2 ^ 64
      → (roll_segment disk s).1 ≡ ok u
      → IsWriting c (roll_segment disk s).0 (next_segment l)
  unfolding encode_all
  roll_segment-IsWriting u room rolled =
      let next : s.segment_id + 1 ≡ suc l.id = omega (arith, writing.id_last) in
      rw (roll_segment-ok disk s u rolled) (record {
        dir_files =
            ap₂ (λ id dir. insert (segment_path id) [] dir) next writing.dir_files
            ∙ (insert-files c l room writing.ascending).1;
        file_last = ap segment_path next;
        id_last = next;
        len_last = refl;
        sealed_fit = AllFit-last l.sealed l.id writing.sealed_fit writing.entries_fit;
        entries_fit = none_left;
        ascending = (insert-files c l room writing.ascending).2;
      })
