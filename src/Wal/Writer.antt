-- ===== src/Wal/Writer.antt =====
-- The log writer: calod/crates/calod-storage/src/wal.rs. Its task handles one message after another,
-- and a call returns with its message's answer. The answers of the file system are arguments.
pub mod Appends
pub mod Replays
pub mod Opening
pub mod Durable
pub mod Torn
pub mod Failures
use calod.Prelude.{
  ℕ, ◌+◌, ◌-◌, ◌^◌, Bool, true, false, not, ◌&&◌, Option, none, some, List, [], ◌∷◌, ◌++◌, Str,
  str_Eq, ltb, leb, if◌then◌else◌, length, take,
}
use calod.Prelude.Map.{get, insert, remove}
use calod.Wal.Format.{Bytes, Crc32c, RecordType, WalPosition, encode_record, header_len}
use calod.Wal.Directory.{Directory, segment_path, content, list_segments}
use calod.Wal.Recover.{
  Result, ok, err, WalError, io, wal_write_failed, RecoveryReport, SegmentInfo, recover,
}

-- `never` is `FsyncStrategy::No`.
pub data FsyncStrategy : Type 0 where
  always everysec never : FsyncStrategy

pub record WalConfig : Type 0 where
  pub max_segment_size : ℕ
  pub fsync_strategy : FsyncStrategy

-- `file` is the name of the open file. The directory is part of the state.
pub record WriterState : Type 0 where
  pub dir : Directory
  pub file : Str
  pub segment_id : ℕ
  pub segment_len : ℕ
  pub max_segment_size : ℕ
  pub fsync_strategy : FsyncStrategy
  pub dirty : Bool
  pub active_segment : ℕ

-- What the file system answers: whether a flush succeeds, whether a file can be created, and whether
-- a write succeeds (`none`) or fails after some bytes.
pub record Disk : Type 0 where
  pub flushes : Bool
  pub creates : Bool
  pub write : Option ℕ

abbrev pub is_absent : Str → Directory → Bool
is_absent path dir = elim (get path dir) [ none ↦ true | some bytes ↦ false ]

-- `file.write_all`: the bytes are added at the end of the open file.
unfoldable pub add_bytes : Str → Bytes → Directory → Directory
add_bytes file bytes dir = insert file (content file dir ++ bytes) dir

unfoldable pub roll_segment : Disk → WriterState → WriterState × Result (Unit {0})
roll_segment disk s =
    if s.dirty && not disk.flushes
    then (s, err io)
    else let path = segment_path (s.segment_id + 1) in
      if disk.creates && is_absent path s.dir
      then (
        record s {
          dir = insert path [] s.dir;
          file = path;
          segment_id = s.segment_id + 1;
          segment_len = 0;
          dirty = false;
          active_segment = s.segment_id + 1;
        },
        ok tt,
      )
      else (record s { segment_id = s.segment_id + 1; dirty = false }, err io)

-- The write of an encoded record at the end of the segment.
unfoldable pub write_record : Disk → Bytes → WriterState → WriterState × Result WalPosition
write_record disk encoded s =
    let position : WalPosition = record { segment_id = s.segment_id; offset = s.segment_len } in
    elim disk.write [
      | some n ↦ (record s { dir = add_bytes s.file (take n encoded) s.dir }, err io)
      | none ↦ (
        record s {
          dir = add_bytes s.file encoded s.dir;
          segment_len = s.segment_len + length encoded;
          dirty = true;
        },
        ok position,
      )
    ]

unfoldable pub handle_append :
    Crc32c → Disk → RecordType → Bytes → WriterState → WriterState × Result WalPosition
handle_append c disk record_type payload s =
    let encoded = encode_record c record_type payload in
    if ltb 0 s.segment_len && ltb s.max_segment_size (s.segment_len + length encoded)
    then (let rolled = roll_segment disk s in
        elim rolled.1 [ ok u ↦ write_record disk encoded rolled.0 | err e ↦ (rolled.0, err e) ])
    else write_record disk encoded s

unfoldable pub append :
    Crc32c → Disk → RecordType → Bytes → WriterState → WriterState × Result WalPosition
append c disk record_type payload s =
    if ltb (2 ^ 32 - 1) (length payload)
    then (s, err wal_write_failed)
    else handle_append c disk record_type payload s

-- The segment in which a writer goes on, and its length.
unfoldable pub resume_at : ℕ → List SegmentInfo → ℕ × ℕ
resume_at max_segment_size [] = (1, 0)
resume_at max_segment_size (info ∷ []) =
    if ltb info.valid_len max_segment_size then (info.id, info.valid_len) else (info.id + 1, 0)
resume_at max_segment_size (info ∷ next ∷ rest) = resume_at max_segment_size (next ∷ rest)

-- `create(true)`: the file is created if it is not there.
unfoldable pub create : Str → Directory → Directory
create path dir = if is_absent path dir then insert path [] dir else dir

unfoldable pub open_writer : Crc32c → WalConfig → Directory → Directory × Result WriterState
open_writer c config dir =
    if leb config.max_segment_size header_len
    then (dir, err wal_write_failed)
    else let recovered = recover c dir in
      elim recovered.1 [
        | err e ↦ (recovered.0, err e)
        | ok report ↦
            let at = resume_at config.max_segment_size report.segments in
            let after = create (segment_path at.0) recovered.0 in
            (
              after,
              ok (record {
                dir = after;
                file = segment_path at.0;
                segment_id = at.0;
                segment_len = at.1;
                max_segment_size = config.max_segment_size;
                fsync_strategy = config.fsync_strategy;
                dirty = false;
                active_segment = at.0;
              }),
            )
      ]

-- The files that `truncate_before` removes.
unfoldable pub remove_below : ℕ → List (ℕ × Str) → Directory → Directory × ℕ
remove_below cutoff [] dir = (dir, 0)
remove_below cutoff ((id, path) ∷ segments) dir =
    let rest = remove_below cutoff segments (remove path dir) in
    let skipped = remove_below cutoff segments dir in
    if ltb id cutoff then (rest.0, rest.1 + 1) else skipped

-- Every file can be removed.
unfoldable pub truncate_before : ℕ → WriterState → WriterState × ℕ
truncate_before segment_id s =
    let cutoff = if ltb segment_id s.active_segment then segment_id else s.active_segment in
    let removed = remove_below cutoff (list_segments s.dir) s.dir in
    (record s { dir = removed.0 }, removed.1)
