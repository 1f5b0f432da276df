-- ===== src/Wal/Recover/Segments.antt =====
-- About the recovery of segments that were written whole, and of a last one that was cut short.
use mathlib.Core.List.{append_assoc}
use calod.Prelude.{
  ℕ, ◌+◌, ◌≤◌, ◌≡◌, refl, sym, ap, ◌∙◌, Str, str_Eq, false, some, List, [], ◌∷◌, ◌++◌, map, arith,
  length, take, nat_beq, ltb, length-append, ◌-◌, Bool-cases, inl, inr, if◌then◌else◌, nat_beq_iff,
}
use calod.Prelude.Map.{insert}
use calod.Prelude.Cuts.{take_all}
use calod.Wal.Format.{Bytes, Crc32c, IsU32, truncated, header_len}
use calod.Wal.Format.RoundTrip.{length-encode_record}
use calod.Wal.Scan.{Found, scan_segment, finished, stopped}
use calod.Wal.Scan.Written.{Entry, encode_entry, encode_all, located, Fits, whole}
use calod.Wal.Scan.Prefix.{stop_at, scan_segment-take-encode_all, take-encode_all-whole}
use calod.Wal.Directory.{Directory, segment_path, content}
use calod.Wal.Directory.Listing.{laid_out, IsAscending, content-laid_out, insert-laid_out}
use calod.Wal.Recover.{ok, RecoveryReport, TailTruncation, report_segment, recover_from}

-- A segment as the entries that were written to it.
abbrev pub Segment : Type 0
Segment = ℕ × List Entry

abbrev pub written : Crc32c → List Segment → List (ℕ × Bytes)
written c = map (λ s. (s.0, encode_all c s.1))

abbrev pub AllFit : List Segment → Type 0
AllFit [] = Unit
AllFit (s ∷ segments) = Fits s.1 × AllFit segments

-- The last segment, of which the first `k` bytes are left.
abbrev pub kept : Crc32c → ℕ → List Entry → Bytes
kept c k es = encode_all c (whole k es)

-- What recovery reports of a last segment that was cut short, or was not.
abbrev pub report_last : Crc32c → ℕ → ℕ → List Entry → RecoveryReport → RecoveryReport
report_last c id k es report =
    let bytes = take k (encode_all c es) in
    let valid_len = length (kept c k es) in
    let cut : TailTruncation = record {
      segment_id = id;
      original_len = length bytes;
      valid_len = valid_len;
    } in
    report_segment id (segment_path id) valid_len (located 0 (whole k es))
      (if nat_beq valid_len (length bytes) then report else record report { truncation = some cut })

module _ (c : Crc32c) (id : ℕ) (path : Str) (dir : Directory) (report : RecoveryReport)
    (bytes : Bytes) (found : List Found) (read : content path dir ≡ bytes) where
  recover_from-finished :
      (rest : List (ℕ × Str))
      → scan_segment c bytes ≡ record { found = found; stop = finished }
      → recover_from c ((id, path) ∷ rest) dir report
        ≡ recover_from c rest dir (report_segment id path (length bytes) found report)
  unfolding recover_from
  recover_from-finished rest scan = ground arith

  recover_from-truncated :
      (valid_len : ℕ)
      → scan_segment c bytes ≡ record { found = found; stop = stopped (truncated valid_len) }
      → recover_from c ((id, path) ∷ []) dir report ≡ (
        insert path (take valid_len bytes) dir,
        ok (
            report_segment id path valid_len found (record report {
              truncation =
                  some (record {
                    segment_id = id;
                    original_len = length bytes;
                    valid_len = valid_len;
                  });
            })),
      )
  unfolding recover_from
  recover_from-truncated valid_len scan = ground arith

recover_from-end :
    (c : Crc32c) (dir : Directory) (report : RecoveryReport)
    → recover_from c [] dir report ≡ (dir, ok report)
unfolding recover_from
recover_from-end c dir report = refl

-- The report after segments that were written whole.
unfoldable pub report_whole : Crc32c → List Segment → RecoveryReport → RecoveryReport
report_whole c [] report = report
report_whole c ((id, es) ∷ segments) report =
    report_whole c segments
      (report_segment id (segment_path id) (length (encode_all c es)) (located 0 es) report)

abbrev pub paths : List Segment → List (ℕ × Str)
paths = map (λ s. (s.0, segment_path s.0))

pub whole_all :
    (es : List Entry) (c : Crc32c) (k : ℕ) → length (encode_all c es) ≤ k → whole k es ≡ es
unfolding whole encode_all
whole_all [] c k h = refl
whole_all (e ∷ es) c k h =
    let size : length (encode_entry c e) ≡ length e.payload + header_len =
      length-encode_record c e.record_type e.payload in
    let total : length (encode_entry c e ++ encode_all c es)
        ≡ length (encode_entry c e) + length (encode_all c es) =
      length-append (encode_entry c e) (encode_all c es) in
    let long : ltb k (header_len + length e.payload) ≡ false = ground arith in
    rw long (ap (◌∷◌ e) (whole_all es c (k - (header_len + length e.payload)) (omega arith)))

module _ (c : Crc32c) (small : IsU32 c) where
  -- A segment that was written whole is read to its end.
  pub scan_segment-encode_all :
      (es : List Entry)
      → Fits es
      → scan_segment c (encode_all c es) ≡ record { found = located 0 es; stop = finished }
  scan_segment-encode_all es fit =
      let k = length (encode_all c es) in
      let bytes : take k (encode_all c es) ≡ encode_all c es =
        take_all k (encode_all c es) (omega arith) in
      rw (bytes, whole_all es c k (omega arith), (nat_beq_iff k k).1 refl) at
        (scan_segment-take-encode_all c small es fit k)

  recover_from-last :
      (front : List (ℕ × Bytes)) (id k : ℕ) (es : List Entry) (report : RecoveryReport) {low : ℕ}
      → Fits es
      → IsAscending low (front ++ (id, take k (encode_all c es)) ∷ [])
      → recover_from c
          ((id, segment_path id) ∷ [])
          (laid_out (front ++ (id, take k (encode_all c es)) ∷ []))
          report
        ≡ (laid_out (front ++ (id, kept c k es) ∷ []), ok (report_last c id k es report))
  recover_from-last front id k es report fit a =
      let bytes = take k (encode_all c es) in
      let valid_len = length (kept c k es) in
      let found = located 0 (whole k es) in
      let read : content (segment_path id) (laid_out (front ++ (id, bytes) ∷ [])) ≡ bytes =
        content-laid_out id bytes front [] a in
      let scan : scan_segment c bytes ≡ record { found = found; stop = stop_at valid_len bytes } =
        scan_segment-take-encode_all c small es fit k in
      let prefix : take valid_len bytes ≡ kept c k es = take-encode_all-whole c es k in
      elim (Bool-cases (nat_beq valid_len (length bytes))) [
        | inl at_end ↦
            let same : bytes ≡ kept c k es =
              sym (take_all valid_len bytes (ground arith)) ∙ prefix in
            recover_from-finished c id (segment_path id) _ report bytes found read []
              (rw at_end at scan)
            ∙ recover_from-end c _ _
            ∙ rw (at_end, same)
        | inr torn ↦
            recover_from-truncated c id (segment_path id) _ report bytes found read valid_len
              (rw torn at scan)
            ∙ rw (torn, prefix, insert-laid_out id bytes (kept c k es) front [] a)
      ]

  -- Segments that were written whole, and a last one that was cut short.
  pub recover_from-segments :
      (segments : List Segment) (front : List (ℕ × Bytes)) (id k : ℕ) (es : List Entry)
      (report : RecoveryReport) {low : ℕ}
      → AllFit segments
      → Fits es
      → IsAscending low (front ++ (written c segments ++ (id, take k (encode_all c es)) ∷ []))
      → recover_from c
          (paths segments ++ (id, segment_path id) ∷ [])
          (laid_out (front ++ (written c segments ++ (id, take k (encode_all c es)) ∷ [])))
          report
        ≡ (
          laid_out (front ++ (written c segments ++ (id, kept c k es) ∷ [])),
          ok (report_last c id k es (report_whole c segments report)),
        )
  unfolding report_whole
  recover_from-segments [] front id k es report fits fit a =
      recover_from-last front id k es report fit a
  recover_from-segments ((i, first) ∷ segments) front id k es report fits fit a =
      let bytes = encode_all c first in
      let rest = written c segments ++ (id, take k (encode_all c es)) ∷ [] in
      let after = front ++ (i, bytes) ∷ [] in
      let next = report_segment i (segment_path i) (length bytes) (located 0 first) report in
      let moved : front ++ (i, bytes) ∷ rest ≡ after ++ rest =
        sym (append_assoc front ((i, bytes) ∷ []) rest) in
      recover_from-finished c i (segment_path i) _ report bytes (located 0 first)
        (content-laid_out i bytes front rest a) (paths segments ++ (id, segment_path id) ∷ [])
        (scan_segment-encode_all first fits.0)
      ∙ ap
          (λ all. recover_from c (paths segments ++ (id, segment_path id) ∷ []) (laid_out all) next)
          moved
      ∙ recover_from-segments segments after id k es next fits.1 fit (rw moved at a)
      ∙ ap (λ all. (laid_out all, ok (report_last c id k es (report_whole c segments next))))
          (append_assoc front ((i, bytes) ∷ []) _)
