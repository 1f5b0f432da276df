-- ===== src/Wal/Writer/Opening.antt =====
-- About opening a writer, on an empty directory and after a crash.
use calod.Prelude.{
  ℕ, suc, ◌+◌, ◌<◌, ◌^◌, ◌≡◌, refl, ap, ◌∙◌, false, List, [], ◌∷◌, ◌++◌, arith, length, take, ltb,
  Bool-cases, inl, inr, if◌then◌else◌, str_Eq,
}
use calod.Wal.Format.{Crc32c, IsU32, header_len}
use calod.Wal.Scan.Written.{Entry, encode_all, Fits, none_left, whole}
use calod.Wal.Directory.{Directory, segment_path}
use calod.Wal.Directory.Listing.{laid_out, IsAscending, IsAscending_content, get-laid_out}
use calod.Wal.Recover.{ok, RecoveryReport, recover}
use calod.Wal.Recover.Segments.{Segment, written, AllFit, kept}
use calod.Wal.Recover.Crash.{
  crashed, recover-crashed, final_report, final_report_segments, infos, whole-Fits, AllFit-last,
}
use calod.Wal.Writer.{WriterState, WalConfig, open_writer, resume_at, create, is_absent}
use calod.Wal.Writer.Appends.{Log, files, IsWriting, next_segment, insert-files}

abbrev pub opened_at : WalConfig → ℕ × ℕ → Directory → WriterState
opened_at config at dir = record {
  dir = create (segment_path at.0) dir;
  file = segment_path at.0;
  segment_id = at.0;
  segment_len = at.1;
  max_segment_size = config.max_segment_size;
  fsync_strategy = config.fsync_strategy;
  dirty = false;
  active_segment = at.0;
}

open_writer-recovered :
    (c : Crc32c) (config : WalConfig) (dir dir' : Directory) (report : RecoveryReport)
    → header_len < config.max_segment_size
    → recover c dir ≡ (dir', ok report)
    → (open_writer c config dir).1
      ≡ ok (opened_at config (resume_at config.max_segment_size report.segments) dir')
unfolding open_writer
open_writer-recovered c config dir dir' report large recovered = ground arith

resume_at-last :
    (c : Crc32c) (max : ℕ) (sealed : List Segment) (id : ℕ) (es : List Entry)
    → resume_at max (infos c (sealed ++ (id, es) ∷ []))
      ≡ (if ltb (length (encode_all c es)) max then (id, length (encode_all c es)) else (suc id, 0))
unfolding resume_at
resume_at-last c max [] id es = let next : id + 1 ≡ suc id = omega arith in rw next
resume_at-last c max (s ∷ []) id es = resume_at-last c max [] id es
resume_at-last c max (s ∷ t ∷ sealed) id es = resume_at-last c max (t ∷ sealed) id es

module _ (c : Crc32c) (small : IsU32 c) (config : WalConfig) (sealed : List Segment) (id : ℕ)
    (es : List Entry) (k : ℕ) (large : header_len < config.max_segment_size) (fits : AllFit sealed)
    (fit : Fits es)
    (ascending : IsAscending 0 (written c sealed ++ (id, take k (encode_all c es)) ∷ []))
    (room : suc id < 2 ^ 64) where
  -- The log that survived the crash.
  abbrev surviving : Log
  surviving = record { sealed = sealed; id = id; entries = whole k es }

  -- The log as the opened writer continues it.
  abbrev pub resumed : Log
  resumed =
      if ltb (length (kept c k es)) config.max_segment_size
      then surviving
      else next_segment surviving

  start_of : ℕ × ℕ
  start_of =
      if ltb (length (kept c k es)) config.max_segment_size
      then (id, length (kept c k es))
      else (suc id, 0)

  still_ascending : IsAscending 0 (files c surviving)
  still_ascending =
      IsAscending_content id (take k (encode_all c es)) (kept c k es) (written c sealed) []
        ascending

  opened_at-same :
      IsWriting c
        (opened_at config (id, length (kept c k es)) (laid_out (files c surviving)))
        surviving
  unfolding create
  opened_at-same = record {
    dir_files = rw (get-laid_out id (kept c k es) (written c sealed) [] still_ascending, is_absent);
    file_last = refl;
    id_last = refl;
    len_last = refl;
    sealed_fit = fits;
    entries_fit = whole-Fits k fit;
    ascending = still_ascending;
  }

  opened_at-next :
      IsWriting c
        (opened_at config (suc id, 0) (laid_out (files c surviving)))
        (next_segment surviving)
  unfolding create encode_all
  opened_at-next =
      let new = insert-files c surviving room still_ascending in
      record {
        dir_files = rw new.0 new.1;
        file_last = refl;
        id_last = refl;
        len_last = refl;
        sealed_fit = AllFit-last sealed id fits (whole-Fits k fit);
        entries_fit = none_left;
        ascending = new.2;
      }

  opened_at-IsWriting :
      IsWriting c (opened_at config start_of (laid_out (files c surviving))) resumed
  unfolding start_of
  opened_at-IsWriting = elim (Bool-cases (ltb (length (kept c k es)) config.max_segment_size)) [
    | inl has_room ↦ rw has_room opened_at-same
    | inr full ↦ rw full opened_at-next
  ]

  -- Opening succeeds.
  pub open_writer-IsWriting :
      (s : WriterState) × ((open_writer c config (crashed c sealed id es k)).1 ≡ ok s)
      × IsWriting c s resumed
  unfolding start_of
  open_writer-IsWriting =
      let report = final_report c small sealed id es k fits fit ascending in
      let recovered = recover-crashed c small sealed id es k fits fit ascending in
      let start : resume_at config.max_segment_size report.segments ≡ start_of =
        ap (resume_at config.max_segment_size)
          (final_report_segments c small sealed id es k fits fit ascending)
        ∙ resume_at-last c config.max_segment_size sealed id (whole k es) in
      (
        opened_at config start_of (laid_out (files c surviving)),
        open_writer-recovered c config _ _ report large recovered
            ∙ ap (λ at. ok (opened_at config at (laid_out (files c surviving)))) start,
        opened_at-IsWriting,
      )
