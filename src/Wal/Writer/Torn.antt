-- ===== src/Wal/Writer/Torn.antt =====
-- About appends after a write that failed in the middle: calod/crates/calod-storage/src/wal.rs.
use mathlib.Core.List.{append_assoc}
use mathlib.Core.Path.{ap₂}
use calod.Prelude.{
  ℕ, ◌+◌, ◌^◌, ◌<◌, ◌≡◌, ap, ◌∙◌, Str, Bool, false, ◌&&◌, some, none, List, [], ◌∷◌, ◌++◌, arith,
  length, ltb, str_eq,
}
use calod.Wal.Format.{
  Bytes, Reason, Crc32c, IsU32, encode_record, header_of, parse_header, failed, corrupt, bad_magic,
}
use calod.Wal.Scan.{Found, scan_segment, stopped}
use calod.Wal.Scan.Written.{Entry, encode_entry, encode_all, located, Fits}
use calod.Wal.Scan.Tail.{scan_segment-encode_all-append}
use calod.Wal.Directory.{Directory, segment_path, content}
use calod.Wal.Directory.Listing.{
  laid_out, IsAscending, IsAscending-fits, step, end, content-laid_out, list_segments-laid_out,
  insert-laid_out,
}
use calod.Wal.Recover.{ok, err, corruption, recover, recover_from, RecoveryReport, empty_report}
use calod.Wal.Writer.{WriterState, Disk, add_bytes, write_record, handle_append, append}
use calod.Wal.Writer.Appends.{IsWriting}

-- One byte of a record in front of another record.
doubled-parse_header :
    (c : Crc32c) (e : Entry) (offset : ℕ)
    → parse_header c offset (b'C' ∷ encode_entry c e) ≡ failed (corrupt offset bad_magic)
unfolding parse_header encode_record header_of str_eq
doubled-parse_header c e offset = ground arith

abbrev over_limit : WriterState → ℕ → Bool
over_limit s size = ltb 0 s.segment_len && ltb s.max_segment_size (s.segment_len + size)

-- One append fails after its first byte, and the next one is acknowledged.
torn_appends :
    (c : Crc32c) (disk disk' : Disk) (s : WriterState) (e e' : Entry)
    → over_limit s (length (encode_entry c e)) ≡ false
    → over_limit s (length (encode_entry c e')) ≡ false
    → length e.payload < 2 ^ 32
    → length e'.payload < 2 ^ 32
    → disk.write ≡ some 1
    → disk'.write ≡ none
    → let torn = (append c disk e.record_type e.payload s).0 in
      let after = append c disk' e'.record_type e'.payload torn in
      (after.1 ≡ ok (record { segment_id = s.segment_id; offset = s.segment_len }))
      × (after.0.dir ≡ add_bytes s.file (encode_entry c e') (add_bytes s.file (b'C' ∷ []) s.dir))
unfolding append handle_append write_record encode_record header_of
torn_appends c disk disk' s e e' under under' small small' torn wrote = (ground arith, ground arith)

add_bytes-single :
    (id : ℕ) (bytes more : Bytes)
    → id < 2 ^ 64
    → add_bytes (segment_path id) more (laid_out ((id, bytes) ∷ []))
      ≡ laid_out ((id, bytes ++ more) ∷ [])
unfolding add_bytes
add_bytes-single id bytes more small =
    let one : IsAscending 0 ((id, bytes) ∷ []) = step (omega arith) small end in
    rw (content-laid_out id bytes [] [] one) (insert-laid_out id bytes (bytes ++ more) [] [] one)

recover_from-corrupt :
    (c : Crc32c) (id : ℕ) (path : Str) (rest : List (ℕ × Str)) (dir : Directory)
    (report : RecoveryReport) (found : List Found) (offset : ℕ) (reason : Reason)
    → scan_segment c (content path dir)
      ≡ record { found = found; stop = stopped (corrupt offset reason) }
    → recover_from c ((id, path) ∷ rest) dir report
      ≡ (dir, err (corruption id (corrupt offset reason)))
unfolding recover_from
recover_from-corrupt c id path rest dir report found offset reason scan = ground arith

-- Recovery of one segment that holds whole records and, behind them, bytes that are corrupt.
recover-corrupt :
    (c : Crc32c)
    → IsU32 c
    → (id : ℕ) (es : List Entry) (tail : Bytes) (reason : Reason) → id < 2 ^ 64
    → Fits es
    → 0 < length tail
    → parse_header c (length (encode_all c es)) tail
      ≡ failed (corrupt (length (encode_all c es)) reason)
    → (recover c (laid_out ((id, encode_all c es ++ tail) ∷ []))).1
      ≡ err (corruption id (corrupt (length (encode_all c es)) reason))
unfolding recover
recover-corrupt c small id es tail reason fits_id fit some_left refused =
    let bytes = encode_all c es ++ tail in
    let one : IsAscending 0 ((id, bytes) ∷ []) = step (omega arith) fits_id end in
    let scan = scan_segment-encode_all-append c small tail _ some_left es fit refused in
    rw (list_segments-laid_out ((id, bytes) ∷ []) one) (
      ap (λ r. r.1)
        (recover_from-corrupt c id (segment_path id) [] _ empty_report (located 0 es)
          (length (encode_all c es)) reason
          (ap (scan_segment c) (content-laid_out id bytes [] [] one) ∙ scan)))

-- One append to the first segment fails after the first byte of its record. The next one is
-- acknowledged, and then recovery fails: the log that holds it is corrupt.
pub torn_append_corrupts :
    (c : Crc32c)
    → IsU32 c
    → (disk disk' : Disk) (s : WriterState) (id : ℕ) (es : List Entry) (e e' : Entry)
    → IsWriting c s (record { sealed = []; id = id; entries = es })
    → over_limit s (length (encode_entry c e)) ≡ false
    → over_limit s (length (encode_entry c e')) ≡ false
    → length e.payload < 2 ^ 32
    → length e'.payload < 2 ^ 32
    → disk.write ≡ some 1
    → disk'.write ≡ none
    → let torn = (append c disk e.record_type e.payload s).0 in
      let after = append c disk' e'.record_type e'.payload torn in
      (after.1 ≡ ok (record { segment_id = s.segment_id; offset = s.segment_len }))
      × ((recover c after.0.dir).1
          ≡ err (corruption id (corrupt (length (encode_all c es)) bad_magic)))
torn_append_corrupts c small disk disk' s id es e e' writing under under' fits fits' torn wrote =
    let bytes = encode_all c es in
    let done = torn_appends c disk disk' s e e' under under' fits fits' torn wrote in
    let fits_id : id < 2 ^ 64 = IsAscending-fits id bytes [] [] writing.ascending in
    let dir : add_bytes s.file (encode_entry c e') (add_bytes s.file (b'C' ∷ []) s.dir)
        ≡ laid_out ((id, bytes ++ b'C' ∷ encode_entry c e') ∷ []) =
      ap₂ (λ file d. add_bytes file (encode_entry c e') (add_bytes file (b'C' ∷ []) d))
        writing.file_last writing.dir_files
      ∙ ap (add_bytes (segment_path id) (encode_entry c e'))
          (add_bytes-single id bytes (b'C' ∷ []) fits_id)
      ∙ add_bytes-single id (bytes ++ b'C' ∷ []) (encode_entry c e') fits_id
      ∙ ap (λ b. laid_out ((id, b) ∷ [])) (append_assoc bytes (b'C' ∷ []) (encode_entry c e')) in
    (
      done.0,
      ap (λ d. (recover c d).1) (done.1 ∙ dir)
          ∙ recover-corrupt c small id es (b'C' ∷ encode_entry c e') bad_magic fits_id
              writing.entries_fit (omega arith) (doubled-parse_header c e' (length bytes)),
    )
