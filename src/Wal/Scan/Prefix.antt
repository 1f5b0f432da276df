-- ===== src/Wal/Scan/Prefix.antt =====
-- About scanning what was written, whole or cut short.
use calod.Prelude.{
  ℕ, zero, suc, ◌+◌, ◌-◌, ◌^◌, ◌<◌, ◌≤◌, ◌≡◌, refl, ap, sym, ◌∙◌, List, [], ◌∷◌, ◌++◌, arith,
  Bool-cases, inl, inr, ltb→lt, ltb, nat_beq, if◌then◌else◌, length, take, drop, length-append,
  length-take,
}
use calod.Prelude.Cuts.{take_both, take-append_le, take-append_ge, length-drop, drop_past}
use calod.Wal.Format.{Bytes, Crc32c, IsU32, parse_one, parse_header, failed, truncated, header_len}
use calod.Wal.Format.RoundTrip.{
  encode_record-parse_header, take-encode_record-parse_header, length-encode_record,
}
use calod.Wal.Scan.Ends.{scan_from-done, scan_from-failed, scan_from-parsed}
use calod.Wal.Scan.Written.{Entry, encode_entry, encode_all, located, Fits, one_more, whole}
use calod.Wal.Scan.{Stop, Found, Scanned, finished, stopped, scan_from, scan_segment}

abbrev pub found_first : ℕ → Entry → Scanned → Scanned
found_first offset e rest = record rest {
  found = record { offset = offset; record_type = e.record_type; payload = e.payload } ∷ rest.found;
}

abbrev ending : List Found → Stop → Scanned
ending found stop = record { found = found; stop = stop }

-- How a scan ends whose records end at `valid_len`.
abbrev pub stop_at : ℕ → Bytes → Stop
stop_at valid_len buf =
    if nat_beq valid_len (length buf) then finished else stopped (truncated valid_len)

module _ (c : Crc32c) (small : IsU32 c) where
  -- How a scan from `offset` ends that has the entries `kept` in front of it.
  abbrev stop_after : ℕ → List Entry → Bytes → Stop
  stop_after offset kept buf = stop_at (offset + length (encode_all c kept)) buf

  stop_after-cons :
      (offset : ℕ) (e : Entry) (kept : List Entry) (buf : Bytes)
      → stop_after offset (e ∷ kept) buf
        ≡ stop_after (offset + header_len + length e.payload) kept buf
  unfolding encode_all
  stop_after-cons offset e kept buf =
      let same : offset + length (encode_entry c e ++ encode_all c kept)
          ≡ offset + header_len + length e.payload + length (encode_all c kept) =
        omega (
          arith,
          length-encode_record c e.record_type e.payload,
          length-append (encode_entry c e) (encode_all c kept),
        ) in
      rw same

  -- The bytes of a record that was not written to its end.
  scan_from-cut :
      (e : Entry)
      → length e.payload < 2 ^ 32
      → (fuel k : ℕ) (buf : Bytes) (offset : ℕ) → drop offset buf ≡ take k (encode_entry c e)
      → offset ≤ length buf
      → k < header_len + length e.payload
      → scan_from (suc fuel) c buf offset ≡ record { found = []; stop = stop_after offset [] buf }
  unfolding encode_all parse_one parse_header
  scan_from-cut e small_e fuel k buf offset rest within cut =
      let size : length (encode_entry c e) ≡ length e.payload + header_len =
        length-encode_record c e.record_type e.payload in
      let left : length buf ≡ offset + k =
        omega (arith, length-drop offset buf, ap length rest, length-take k (encode_entry c e)) in
      elim (Bool-cases (nat_beq k 0)) [
        | inl at_end ↦ rw (scan_from-done fuel c buf offset (ground arith)) (ground arith)
        | inr torn ↦
            let refused : parse_one c buf offset ≡ failed (truncated offset) =
              ap (parse_header c offset) rest
              ∙ take-encode_record-parse_header c e.record_type e.payload offset small_e k
                  (omega arith) in
            rw (scan_from-failed fuel c buf offset _ (ground arith) refused) (ground arith)
      ]

  -- The bytes of a whole record.
  pub scan_from-whole :
      (e : Entry)
      → length e.payload < 2 ^ 32
      → (fuel : ℕ) (buf : Bytes) (offset : ℕ) (rest : Bytes)
      → drop offset buf ≡ encode_entry c e ++ rest
      → scan_from (suc fuel) c buf offset
        ≡ record (scan_from fuel c buf (offset + header_len + length e.payload)) {
          found =
              record { offset = offset; record_type = e.record_type; payload = e.payload }
              ∷ (scan_from fuel c buf (offset + header_len + length e.payload)).found;
        }
  unfolding parse_one
  scan_from-whole e small_e fuel buf offset rest split =
      scan_from-parsed fuel c buf offset _
        (omega (
          arith,
          length-drop offset buf,
          ap length split,
          length-encode_record c e.record_type e.payload,
          length-append (encode_entry c e) rest,
        ))
        (ap (parse_header c offset) split
          ∙ encode_record-parse_header c small e.record_type e.payload rest offset small_e)

  scan_from-take-encode_all :
      (es : List Entry)
      → Fits es
      → (fuel k : ℕ) (buf : Bytes) (offset : ℕ) → drop offset buf ≡ take k (encode_all c es)
      → offset ≤ length buf
      → length buf < offset + fuel
      → scan_from fuel c buf offset
        ≡ record { found = located offset (whole k es); stop = stop_after offset (whole k es) buf }
  unfolding whole located encode_all
  scan_from-take-encode_all es fit zero k buf offset rest within enough = absurd (omega arith)
  scan_from-take-encode_all [] fit (suc fuel) k buf offset rest within enough =
      let at_end : length buf ≤ offset =
        omega (arith, length-drop offset buf, ap length rest, length-take {A = ℕ} k []) in
      rw (scan_from-done fuel c buf offset at_end) (ground arith)
  scan_from-take-encode_all (e ∷ es) (one_more small_e fit) (suc fuel) k buf offset rest within
        enough =
      elim (Bool-cases (ltb k (header_len + length e.payload))) [
        | inl cut ↦ rw cut (
            scan_from-cut e small_e fuel k buf offset
              (rest
                ∙ take-append_le k (encode_entry c e) (encode_all c es)
                    (ground (arith, length-encode_record c e.record_type e.payload)))
              within (ltb→lt _ _ cut))
        | inr all ↦
            let size : length (encode_entry c e) ≡ length e.payload + header_len =
              length-encode_record c e.record_type e.payload in
            let long : length (encode_entry c e) ≤ k = ground arith in
            let split : drop offset buf
                ≡ encode_entry c e ++ take (k - length (encode_entry c e)) (encode_all c es) =
              rest ∙ take-append_ge k (encode_entry c e) (encode_all c es) long in
            let after = k - length (encode_entry c e) in
            let next = offset + header_len + length e.payload in
            let step : next ≡ offset + length (encode_entry c e) = omega arith in
            let moved : drop next buf ≡ take after (encode_all c es) =
              rw step
                (drop_past offset buf (encode_entry c e) (take after (encode_all c es)) split) in
            let bound : next ≤ length buf = omega (
              arith,
              length-drop offset buf,
              ap length split,
              length-append (encode_entry c e) (take after (encode_all c es)),
            ) in
            let same : k - (header_len + length e.payload) ≡ after = omega arith in
            rw (all, same)
              (scan_from-whole e small_e fuel buf offset (take after (encode_all c es)) split
                ∙ ap (found_first offset e)
                    (scan_from-take-encode_all es fit fuel after buf next moved bound (omega arith))
                ∙ ap (ending (located offset (e ∷ whole after es)))
                    (sym (stop_after-cons offset e (whole after es) buf)))
      ]

  -- A segment that holds the first `k` bytes of what was written: the scan finds the records that
  -- are whole, and ends where the last of them ends.
  pub scan_segment-take-encode_all :
      (es : List Entry)
      → Fits es
      → (k : ℕ)
      → scan_segment c (take k (encode_all c es)) ≡ record {
        found = located 0 (whole k es);
        stop = stop_at (length (encode_all c (whole k es))) (take k (encode_all c es));
      }
  unfolding scan_segment
  scan_segment-take-encode_all es fit k =
      let buf = take k (encode_all c es) in
      scan_from-take-encode_all es fit (length buf + 1) k buf 0 refl (omega arith) (omega arith)
      ∙ ap (λ v. ending (located 0 (whole k es)) (stop_at v buf)) (omega arith)

module _ (c : Crc32c) where
  -- The records that are whole are a prefix of the bytes.
  pub take-encode_all-whole :
      (es : List Entry) (k : ℕ)
      → take (length (encode_all c (whole k es))) (take k (encode_all c es))
        ≡ encode_all c (whole k es)
  unfolding encode_all whole
  take-encode_all-whole [] k = refl
  take-encode_all-whole (e ∷ es) k = elim (Bool-cases (ltb k (header_len + length e.payload))) [
    | inl cut ↦ rw cut
    | inr all ↦
        let size : length (encode_entry c e) ≡ length e.payload + header_len =
          length-encode_record c e.record_type e.payload in
        let same : k - (header_len + length e.payload) ≡ k - length (encode_entry c e) =
          omega arith in
        rw (all, same, take-append_ge k (encode_entry c e) (encode_all c es) (ground arith))
          (take_both (encode_entry c e) (encode_all c (whole (k - length (encode_entry c e)) es)) _
            (take-encode_all-whole es (k - length (encode_entry c e))))
  ]
