-- ===== src/Wal/Tests.antt =====
-- The log on small inputs.
use calod.Prelude.{
  ℕ, ◌+◌, ◌*◌, ◌%◌, ◌^◌, ◌<◌, ◌≡◌, ◌≢◌, refl, true, false, Bool, none, some, List, [], ◌∷◌, ◌++◌,
  arith, length, take, str, str_eq,
}
use calod.Prelude.Text.{decimal}
use calod.Wal.Format.{
  Bytes, Crc32c, IsU32, RecordType, put, checkpoint, WalPosition, encode_record, truncated, corrupt,
  bad_magic, crc_mismatch, parsed, failed, parse_one,
}
use calod.Wal.Scan.{scan_segment, scan_from, finished, stopped, out_of_fuel, Stop}
use calod.Wal.Scan.Written.{
  Entry, encode_all, encode_entry, Fits, none_left, one_more, whole, located,
}
use calod.Wal.Scan.Ends.{scan_segment-ends}
use calod.Wal.Directory.{Directory, segment_path, parse_segment_file_name}
use calod.Wal.Directory.Listing.{
  laid_out, IsAscending, step, end, parse_segment_file_name-segment_path,
}
use calod.Wal.Recover.{Result, ok, err, io, corruption, recover, replay_all, WalRecord}
use calod.Wal.Recover.Segments.{written}
use calod.Wal.Recover.Crash.{records_of, crashed, replay_all-crashed}
use calod.Wal.Writer.{WriterState, WalConfig, Disk, open_writer, append, add_bytes, FsyncStrategy}
use calod.Wal.Writer.Appends.{IsWriting}
use calod.Wal.Writer.Replays.{Acknowledged, acknowledged_at}
use calod.Wal.Writer.Durable.{acknowledged_replay}
use calod.Wal.Writer.Torn.{torn_append_corrupts}
use calod.Wal.Writer.Failures.{failed_roll_misplaces}

unfoldable sum : Bytes → ℕ
sum [] = 0
sum (b ∷ bs) = b + sum bs

-- A sum in place of the polynomial.
unfoldable sum_onto : ℕ → Bytes → ℕ
unfolding sum
sum_onto seed bytes = (seed + sum bytes) % 2 ^ 32

abbrev sums : Crc32c
sums = record { crc32c = sum_onto 0; crc32c_append = sum_onto }

sums-IsU32 : IsU32 sums
unfolding sum_onto
sums-IsU32 seed bytes = omega arith

abbrev a_b : Entry
a_b = record { record_type = put; payload = b'a' ∷ b'b' ∷ [] }

abbrev mark : Entry
mark = record { record_type = checkpoint; payload = [] }

abbrev config : WalConfig
config = record { max_segment_size = 40; fsync_strategy = FsyncStrategy.always }

-- Two records, and the second one of them written up to its third byte.
abbrev two : List Entry
two = a_b ∷ mark ∷ []

abbrev two_fit : Fits two
two_fit = one_more (omega arith) (one_more (omega arith) none_left)

abbrev one_segment : IsAscending 0 ((1, take 18 (encode_all sums two)) ∷ [])
one_segment = step (omega arith) (omega arith) end

abbrev working : Disk
working = record { flushes = true; creates = true; write = none }

abbrev opened : WriterState
opened = record {
  dir = (segment_path 1, encode_entry sums a_b) ∷ [];
  file = segment_path 1;
  segment_id = 1;
  segment_len = 15;
  max_segment_size = 40;
  fsync_strategy = FsyncStrategy.always;
  dirty = false;
  active_segment = 1;
}

abbrev after_one : WriterState
after_one = record opened {
  dir = (segment_path 1, encode_entry sums a_b ++ encode_entry sums mark) ∷ [];
  segment_len = 28;
  dirty = true;
}

abbrev position_15 : WalPosition
position_15 = record { segment_id = 1; offset = 15 }

abbrev acks : List WalRecord
acks = acknowledged_at position_15 mark ∷ []

scan_cut :
    scan_segment sums (take 18 (encode_all sums two))
    ≡ record { found = located 0 (a_b ∷ []); stop = stopped (truncated 15) }
unfolding scan_segment encode_all encode_record calod.Wal.Format.header_of parse_one str_eq sum_onto
    located
scan_cut = refl

opens : (open_writer sums config (crashed sums [] 1 two 18)).1 ≡ ok opened
unfolding open_writer recover calod.Wal.Recover.recover_from calod.Wal.Directory.list_segments
    calod.Wal.Directory.sort_by_id calod.Wal.Directory.segments_of laid_out parse_segment_file_name
    calod.Prelude.Text.strip_prefix segment_path calod.Wal.Directory.parse_stem
    calod.Prelude.Text.strip_suffix calod.Prelude.Text.parse_u64 calod.Wal.Directory.insert_by_id
    scan_segment calod.Wal.Directory.content calod.Prelude.Map.get calod.Wal.Scan.Written.encode_all
    encode_record calod.Wal.Format.header_of parse_one sum_onto calod.Wal.Writer.create
    calod.Wal.Writer.resume_at calod.Prelude.Map.insert calod.Wal.Recover.report_segment
opens = refl

appends : append sums working checkpoint [] opened ≡ (after_one, ok position_15)
unfolding append calod.Wal.Writer.handle_append encode_record calod.Wal.Format.header_of
    calod.Wal.Writer.write_record add_bytes calod.Prelude.Map.insert str_eq segment_path
    calod.Wal.Directory.content calod.Prelude.Map.get
appends = refl

run : Acknowledged sums opened acks after_one
run = Acknowledged.step Acknowledged.start working mark position_15 (omega arith) appends refl

acknowledged_replay_example :
    replay_all sums after_one.dir
    ≡ (after_one.dir, ok (records_of ((1, whole 18 two) ∷ []) ++ acks))
acknowledged_replay_example =
    acknowledged_replay sums sums-IsU32 config [] 1 two 18 (omega arith) tt two_fit one_segment
      (omega arith) opened after_one acks opens run

replay_all-crashed_example :
    replay_all sums (crashed sums [] 1 two 18)
    ≡ (laid_out (written sums ((1, whole 18 two) ∷ [])), ok (records_of ((1, whole 18 two) ∷ [])))
replay_all-crashed_example = replay_all-crashed sums sums-IsU32 [] 1 two 18 tt two_fit one_segment

scan_segment-ends_example : (scan_segment sums (b'C' ∷ [])).stop ≢ out_of_fuel
scan_segment-ends_example = scan_segment-ends sums (b'C' ∷ [])

parse_segment_file_name-segment_path_example : parse_segment_file_name (segment_path 12) ≡ some 12
parse_segment_file_name-segment_path_example = parse_segment_file_name-segment_path 12 (omega arith)

abbrev tearing : Disk
tearing = record { flushes = true; creates = true; write = some 1 }

writing : IsWriting sums opened (record { sealed = []; id = 1; entries = a_b ∷ [] })
unfolding laid_out encode_all encode_record calod.Wal.Format.header_of sum_onto
writing = record {
  dir_files = refl;
  file_last = refl;
  id_last = refl;
  len_last = refl;
  sealed_fit = tt;
  entries_fit = one_more (omega arith) none_left;
  ascending = step (omega arith) (omega arith) end;
}

torn_append_corrupts_example :
    let torn = (append sums tearing checkpoint [] opened).0 in
    let after = append sums working checkpoint [] torn in
    (after.1 ≡ ok (record { segment_id = 1; offset = 15 }))
    × ((recover sums after.0.dir).1
        ≡ err (corruption 1 (corrupt (length (encode_all sums (a_b ∷ []))) bad_magic)))
unfolding encode_record calod.Wal.Format.header_of
torn_append_corrupts_example =
    torn_append_corrupts sums sums-IsU32 tearing working opened 1 (a_b ∷ []) mark mark writing refl
      refl (omega arith) (omega arith) refl refl

abbrev full_disk : Disk
full_disk = record { flushes = true; creates = false; write = none }

abbrev long : Bytes
long = b'1' ∷ b'2' ∷ b'3' ∷ b'4' ∷ b'5' ∷ b'6' ∷ b'7' ∷ b'8' ∷ b'9' ∷ b'0' ∷ b'1' ∷ b'2' ∷ b'3' ∷ []

failed_roll_misplaces_example :
    ((append sums full_disk put long opened).1 ≡ err io)
    × ((append sums full_disk put long opened).0.dir ≡ opened.dir)
    × ((append sums working checkpoint [] (append sums full_disk put long opened).0).1
        ≡ ok (record { segment_id = 2; offset = 15 }))
    × ((append sums working checkpoint [] (append sums full_disk put long opened).0).0.dir
        ≡ add_bytes (segment_path 1) (encode_record sums checkpoint []) opened.dir)
unfolding encode_record calod.Wal.Format.header_of
failed_roll_misplaces_example =
    failed_roll_misplaces sums full_disk working opened put checkpoint long [] refl refl
      (omega arith) (omega arith) refl refl refl
