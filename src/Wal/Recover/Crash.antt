-- ===== src/Wal/Recover/Crash.antt =====
-- About the replay of a directory after a crash.
use mathlib.Core.List.{append_assoc, append-nil}
use calod.Prelude.{
  ℕ, ◌+◌, ◌-◌, ◌≡◌, refl, ap, ◌∙◌, List, [], ◌∷◌, ◌++◌, map, arith, length, take, nat_beq, ltb,
  Bool-cases, inl, inr,
}
use calod.Wal.Format.{Bytes, Crc32c, IsU32, header_len}
use calod.Wal.Scan.{Found, scan_segment, finished}
use calod.Wal.Scan.Written.{Entry, encode_all, located, Fits, none_left, one_more, whole}
use calod.Wal.Directory.{Directory, segment_path, content}
use calod.Wal.Directory.Listing.{
  laid_out, IsAscending, content-laid_out, list_segments-laid_out, IsAscending_content,
}
use calod.Wal.Recover.{
  ok, RecoveryReport, SegmentInfo, WalRecord, record_of, report_segment, recover, drain, replay_all,
  empty_report,
}
use calod.Wal.Recover.Segments.{
  Segment, written, AllFit, kept, report_last, report_whole, paths, scan_segment-encode_all,
  recover_from-segments,
}

pub whole-Fits : (k : ℕ) {es : List Entry} → Fits es → Fits (whole k es)
unfolding whole
whole-Fits k none_left = none_left
whole-Fits k (one_more {e = e} {es = es} small fit) =
    elim (Bool-cases (ltb k (header_len + length e.payload))) [
      | inl cut ↦ rw cut none_left
      | inr all ↦ rw all (one_more small (whole-Fits (k - (header_len + length e.payload)) fit))
    ]

-- All records of some segments, with their positions.
unfoldable pub records_of : List Segment → List WalRecord
records_of [] = []
records_of ((id, es) ∷ segments) = map (record_of id) (located 0 es) ++ records_of segments

abbrev pub info_of : Crc32c → Segment → SegmentInfo
info_of c s = record { id = s.0; path = segment_path s.0; valid_len = length (encode_all c s.1) }

abbrev pub infos : Crc32c → List Segment → List SegmentInfo
infos c = map (info_of c)

report_whole_segments :
    (c : Crc32c) (segments : List Segment) (report : RecoveryReport)
    → (report_whole c segments report).segments ≡ report.segments ++ infos c segments
unfolding report_whole report_segment
report_whole_segments c [] report = rw append-nil
report_whole_segments c ((id, es) ∷ segments) report =
    report_whole_segments c segments _ ∙ append_assoc report.segments (info_of c (id, es) ∷ []) _

report_last_segments :
    (c : Crc32c) (id k : ℕ) (es : List Entry) (report : RecoveryReport)
    → (report_last c id k es report).segments ≡ report.segments ++ infos c ((id, whole k es) ∷ [])
unfolding report_segment
report_last_segments c id k es report =
    elim (Bool-cases (nat_beq (length (kept c k es)) (length (take k (encode_all c es))))) [
      | inl e ↦ rw e
      | inr e ↦ rw e
    ]

module _ (c : Crc32c) (small : IsU32 c) where
  drain-step :
      (s : SegmentInfo) (rest : List SegmentInfo) (dir : Directory) (bytes : Bytes)
      (found : List Found) (records : List WalRecord)
      → content s.path dir ≡ bytes
      → scan_segment c bytes ≡ record { found = found; stop = finished }
      → drain c rest dir ≡ ok records
      → drain c (s ∷ rest) dir ≡ ok (map (record_of s.id) found ++ records)
  unfolding drain
  drain-step s rest dir bytes found records read scan more = ground arith

  drain-written :
      (segments : List Segment) (front : List (ℕ × Bytes)) {low : ℕ}
      → AllFit segments
      → IsAscending low (front ++ written c segments)
      → drain c (infos c segments) (laid_out (front ++ written c segments))
        ≡ ok (records_of segments)
  unfolding records_of
  drain-written [] front fits a = unfold drain in refl
  drain-written ((id, es) ∷ segments) front fits a =
      let bytes = encode_all c es in
      let rest = written c segments in
      let moved : (front ++ (id, bytes) ∷ []) ++ rest ≡ front ++ (id, bytes) ∷ rest =
        append_assoc front ((id, bytes) ∷ []) rest in
      drain-step (info_of c (id, es)) (infos c segments) _ bytes (located 0 es)
        (records_of segments) (content-laid_out id bytes front rest a)
        (scan_segment-encode_all c small es fits.0)
        (rw moved at
          (drain-written segments (front ++ (id, bytes) ∷ []) fits.1 (rw (← moved) at a)))

pub AllFit-last :
    (segments : List Segment) (id : ℕ) {es : List Entry}
    → AllFit segments
    → Fits es
    → AllFit (segments ++ (id, es) ∷ [])
AllFit-last [] id fits fit = (fit, tt)
AllFit-last (s ∷ segments) id fits fit = (fits.0, AllFit-last segments id fits.1 fit)

pub written-last :
    (c : Crc32c) (segments : List Segment) (id : ℕ) (es : List Entry)
    → written c (segments ++ (id, es) ∷ []) ≡ written c segments ++ (id, encode_all c es) ∷ []
written-last c [] id es = refl
written-last c (s ∷ segments) id es =
    ap (◌∷◌ (s.0, encode_all c s.1)) (written-last c segments id es)

names-written :
    (c : Crc32c) (segments : List Segment) (id : ℕ) (bytes : Bytes)
    → map (λ s. (s.0, segment_path s.0)) (written c segments ++ (id, bytes) ∷ [])
      ≡ paths segments ++ (id, segment_path id) ∷ []
names-written c [] id bytes = refl
names-written c (s ∷ segments) id bytes =
    ap (◌∷◌ (s.0, segment_path s.0)) (names-written c segments id bytes)

infos-last :
    (c : Crc32c) (segments : List Segment) (s : Segment)
    → infos c (segments ++ s ∷ []) ≡ infos c segments ++ info_of c s ∷ []
infos-last c [] s = refl
infos-last c (t ∷ segments) s = ap (◌∷◌ (info_of c t)) (infos-last c segments s)

replay_all-recovered :
    (c : Crc32c) (dir dir' : Directory) (report : RecoveryReport)
    → recover c dir ≡ (dir', ok report)
    → replay_all c dir ≡ (dir', drain c report.segments dir')
unfolding replay_all
replay_all-recovered c dir dir' report h = ground arith

-- The directory after a crash, of whose last segment the first `k` bytes are left.
abbrev pub crashed : Crc32c → List Segment → ℕ → List Entry → ℕ → Directory
crashed c segments id es k = laid_out (written c segments ++ (id, take k (encode_all c es)) ∷ [])

module _ (c : Crc32c) (small : IsU32 c) (segments : List Segment) (id : ℕ) (es : List Entry) (k : ℕ)
    (fits : AllFit segments) (fit : Fits es) {low : ℕ}
    (ascending : IsAscending low (written c segments ++ (id, take k (encode_all c es)) ∷ [])) where
  pub final_report : RecoveryReport
  final_report = report_last c id k es (report_whole c segments empty_report)

  pub recover-crashed :
      recover c (crashed c segments id es k)
      ≡ (laid_out (written c segments ++ (id, kept c k es) ∷ []), ok final_report)
  unfolding recover final_report
  recover-crashed =
      rw
        (list_segments-laid_out _ ascending, names-written c segments id (take k (encode_all c es)))
        (recover_from-segments c small segments [] id k es empty_report fits fit ascending)

  pub final_report_segments : final_report.segments ≡ infos c (segments ++ (id, whole k es) ∷ [])
  unfolding final_report
  final_report_segments =
      report_last_segments c id k es (report_whole c segments empty_report)
      ∙ rw (report_whole_segments c segments empty_report, infos-last c segments (id, whole k es))

  -- A crash left the segments before the last one whole, and any number of the bytes of the last
  -- one. Replay answers with exactly the records that are whole, at their positions, and cuts the
  -- last segment after them.
  pub replay_all-crashed : replay_all c (crashed c segments id es k) ≡ (
    laid_out (written c (segments ++ (id, whole k es) ∷ [])),
    ok (records_of (segments ++ (id, whole k es) ∷ [])),
  )
  replay_all-crashed =
      let all = segments ++ (id, whole k es) ∷ [] in
      let recovered : recover c (crashed c segments id es k)
          ≡ (laid_out (written c all), ok final_report) =
        rw (written-last c segments id (whole k es)) recover-crashed in
      let drained : drain c (infos c all) (laid_out (written c all)) ≡ ok (records_of all) =
        drain-written c small all [] (AllFit-last segments id fits (whole-Fits k fit)) (
          rw (← (written-last c segments id (whole k es))) at (
            IsAscending_content id (take k (encode_all c es)) (kept c k es) (written c segments) []
              ascending)) in
      replay_all-recovered c (crashed c segments id es k) (laid_out (written c all)) final_report
        recovered
      ∙ rw (final_report_segments, drained)
