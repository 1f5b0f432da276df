-- ===== src/Wal/Writer/Failures.antt =====
-- About appends after one that failed: calod/crates/calod-storage/src/wal.rs.
use calod.Prelude.{ℕ, ◌+◌, ◌^◌, ◌<◌, ◌≡◌, Bool, true, false, ◌&&◌, none, arith, length, ltb, str_Eq}
use calod.Wal.Format.{Bytes, Crc32c, RecordType, encode_record}
use calod.Wal.Recover.{ok, err, io}
use calod.Wal.Writer.{
  WriterState, Disk, add_bytes, roll_segment, write_record, handle_append, append,
}

-- The segment is not empty and a record of this size would exceed its limit.
abbrev over_limit : WriterState → ℕ → Bool
over_limit s size = ltb 0 s.segment_len && ltb s.max_segment_size (s.segment_len + size)

-- Where a segment cannot be rolled because its file cannot be created, the append fails and no file
-- changes. The next record that still fits in the old segment is acknowledged at a position in the
-- next segment, while its bytes are added to the open file, which is still the old one.
pub failed_roll_misplaces :
    (c : Crc32c) (disk disk' : Disk) (s : WriterState) (t t' : RecordType) (p p' : Bytes)
    → over_limit s (length (encode_record c t p)) ≡ true
    → over_limit s (length (encode_record c t' p')) ≡ false
    → length p < 2 ^ 32
    → length p' < 2 ^ 32
    → disk.flushes ≡ true
    → disk.creates ≡ false
    → disk'.write ≡ none
    → ((append c disk t p s).1 ≡ err io)
      × ((append c disk t p s).0.dir ≡ s.dir)
      × ((append c disk' t' p' (append c disk t p s).0).1
          ≡ ok (record { segment_id = s.segment_id + 1; offset = s.segment_len }))
      × ((append c disk' t' p' (append c disk t p s).0).0.dir
          ≡ add_bytes s.file (encode_record c t' p') s.dir)
unfolding append handle_append roll_segment write_record
failed_roll_misplaces c disk disk' s t t' p p' over under small small' flushed uncreated wrote =
    (ground arith, ground arith, ground arith, ground arith)
