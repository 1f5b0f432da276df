-- ===== src/Wal/Recover.antt =====
-- Recovery and replay of a directory: calod/crates/calod-storage/src/wal.rs. Files that are there can
-- be read and truncated. A path is named by the segment's file name.
pub mod Segments
pub mod Crash
use calod.Prelude.{
  ℕ, Bool, true, false, Option, none, some, List, [], ◌∷◌, ◌++◌, Str, length, take, map, str_Eq,
  if◌then◌else◌,
}
use calod.Prelude.Map.{insert}
use calod.Wal.Format.{Bytes, Crc32c, RecordType, ScanError, truncated, corrupt, WalPosition}
use calod.Wal.Scan.{Found, Stop, finished, stopped, out_of_fuel, scan_segment}
use calod.Wal.Directory.{Directory, content, list_segments}

-- The variants of `PersistenceError` that the log answers with. A corruption carries the segment and
-- what is wrong in it, from which the source writes a text. `diverged` is an artefact of the model.
pub data WalError : Type 0 where
  io : WalError
  corruption : ℕ → ScanError → WalError
  wal_write_failed : WalError
  diverged : WalError

pub data Result {ℓ} (A : Type ℓ) : Type ℓ where
  ok : A → Result A
  err : WalError → Result A

pub record SegmentInfo : Type 0 where
  pub id : ℕ
  pub path : Str
  pub valid_len : ℕ

pub record TailTruncation : Type 0 where
  pub segment_id : ℕ
  pub original_len : ℕ
  pub valid_len : ℕ

pub record RecoveryReport : Type 0 where
  pub segments : List SegmentInfo
  pub truncation : Option TailTruncation
  pub last_position : Option WalPosition

abbrev pub empty_report : RecoveryReport
empty_report = record { segments = []; truncation = none; last_position = none }

-- `last_offset` after the scan, as a position.
unfoldable pub last_position_of : ℕ → List Found → Option WalPosition → Option WalPosition
last_position_of segment_id [] before = before
last_position_of segment_id (f ∷ fs) before =
    last_position_of segment_id fs (some (record { segment_id = segment_id; offset = f.offset }))

-- The report after one more segment.
unfoldable pub report_segment : ℕ → Str → ℕ → List Found → RecoveryReport → RecoveryReport
report_segment id path valid_len found report = record report {
  segments = report.segments ++ record { id = id; path = path; valid_len = valid_len } ∷ [];
  last_position = last_position_of id found report.last_position;
}

-- The loop of `recover`: the directory after it, and the report.
unfoldable pub recover_from :
    Crc32c → List (ℕ × Str) → Directory → RecoveryReport → Directory × Result RecoveryReport
recover_from c [] dir report = (dir, ok report)
recover_from c ((id, path) ∷ rest) dir report =
    let bytes = content path dir in
    let scan = scan_segment c bytes in
    elim scan.stop [
      | finished ↦ recover_from c rest dir (report_segment id path (length bytes) scan.found report)
      | stopped (truncated valid_len) ↦ elim rest [
        | [] ↦
            let cut : TailTruncation = record {
              segment_id = id;
              original_len = length bytes;
              valid_len = valid_len;
            } in
            (
              insert path (take valid_len bytes) dir,
              ok (
                  report_segment id path valid_len scan.found
                    (record report { truncation = some cut })),
            )
        | ◌∷◌ s ss ↦ (dir, err (corruption id (truncated valid_len)))
      ]
      | stopped (corrupt offset reason) ↦ (dir, err (corruption id (corrupt offset reason)))
      | out_of_fuel ↦ (dir, err diverged)
    ]

unfoldable pub recover : Crc32c → Directory → Directory × Result RecoveryReport
recover c dir = recover_from c (list_segments dir) dir empty_report

pub record WalRecord : Type 0 where
  pub segment_id : ℕ
  pub offset : ℕ
  pub record_type : RecordType
  pub payload : Bytes

abbrev pub record_of : ℕ → Found → WalRecord
record_of id f = record {
  segment_id = id;
  offset = f.offset;
  record_type = f.record_type;
  payload = f.payload;
}

-- Calls of `next` until it answers `None` or an error, from the segments that are left.
unfoldable pub drain : Crc32c → List SegmentInfo → Directory → Result (List WalRecord)
drain c [] dir = ok []
drain c (s ∷ segments) dir =
    let rest = drain c segments dir in
    let scan = scan_segment c (content s.path dir) in
    elim scan.stop [
      | finished ↦ elim rest [
        | ok records ↦ ok (map (record_of s.id) scan.found ++ records)
        | err e ↦ err e
      ]
      | stopped e ↦ err (corruption s.id e)
      | out_of_fuel ↦ err diverged
    ]

-- The directory after the recovery, and the records or the first error.
unfoldable pub replay_all : Crc32c → Directory → Directory × Result (List WalRecord)
replay_all c dir =
    let recovered = recover c dir in
    elim recovered.1 [
      | err e ↦ (recovered.0, err e)
      | ok report ↦ (recovered.0, drain c report.segments recovered.0)
    ]
