-- ===== src/Wal/Scan/Ends.antt =====
-- About the end of the scanning loop.
use calod.Prelude.{
  ℕ, zero, suc, ◌+◌, ◌<◌, ◌≤◌, ◌≡◌, ◌≢◌, ◌⊎◌, refl, ◌∷◌, [], arith, Bool-cases, inl, inr, ltb,
  length,
}
use calod.Prelude.Cuts.{length-drop}
use calod.Wal.Format.{
  Bytes, Crc32c, parse_one, parse_header, parse_payload, Parsed, ScanError, parsed, failed,
  ParsedRecord,
}
use calod.Wal.Scan.{finished, stopped, out_of_fuel, scan_from, scan_segment}

-- A successful parse moves forward, within the buffer.
parse_one-le_length :
    (c : Crc32c) (buf : Bytes) (offset : ℕ)
    → offset ≤ length buf
    → (r : ParsedRecord) → parse_one c buf offset ≡ parsed r
    → (offset < r.next_offset) × (r.next_offset ≤ length buf)
unfolding parse_one parse_header parse_payload
parse_one-le_length c buf offset within r h = ground (arith, length-drop offset buf)

Parsed-cases :
    (p : Parsed) → ((r : ParsedRecord) × (p ≡ parsed r)) ⊎ ((e : ScanError) × (p ≡ failed e))
Parsed-cases (parsed r) = inl (r, refl)
Parsed-cases (failed e) = inr (e, refl)

module _ (fuel : ℕ) (c : Crc32c) (buf : Bytes) (offset : ℕ) where
  pub scan_from-done :
      length buf ≤ offset
      → scan_from (suc fuel) c buf offset ≡ record { found = []; stop = finished }
  unfolding scan_from
  scan_from-done h = ground arith

  pub scan_from-failed :
      (e : ScanError)
      → offset < length buf
      → parse_one c buf offset ≡ failed e
      → scan_from (suc fuel) c buf offset ≡ record { found = []; stop = stopped e }
  unfolding scan_from
  scan_from-failed e more refused = ground arith

  pub scan_from-parsed :
      (r : ParsedRecord)
      → offset < length buf
      → parse_one c buf offset ≡ parsed r
      → scan_from (suc fuel) c buf offset ≡ record (scan_from fuel c buf r.next_offset) {
        found =
            record { offset = offset; record_type = r.record_type; payload = r.payload }
            ∷ (scan_from fuel c buf r.next_offset).found;
      }
  unfolding scan_from
  scan_from-parsed r more good = ground arith

-- The loop ends by itself.
scan_from-ends :
    (fuel : ℕ) (c : Crc32c) (buf : Bytes) (offset : ℕ)
    → offset ≤ length buf
    → length buf < offset + fuel
    → (scan_from fuel c buf offset).stop ≢ out_of_fuel
scan_from-ends zero c buf offset within enough = absurd (omega arith)
scan_from-ends (suc fuel) c buf offset within enough = elim (Bool-cases (ltb offset (length buf))) [
  | inr done ↦ rw (scan_from-done fuel c buf offset (ground arith)) (λ h. cc)
  | inl more ↦ elim (Parsed-cases (parse_one c buf offset)) [
    | inr (e, refused) ↦ rw (scan_from-failed fuel c buf offset e (ground arith) refused) (λ h. cc)
    | inl (r, good) ↦
        let bound : (offset < r.next_offset) × (r.next_offset ≤ length buf) =
          parse_one-le_length c buf offset within r good in
        rw (scan_from-parsed fuel c buf offset r (ground arith) good)
          (scan_from-ends fuel c buf r.next_offset bound.1 (omega arith))
  ]
]

-- Scanning a segment always ends by the end of the buffer or by a record that does not parse.
pub scan_segment-ends : (c : Crc32c) (buf : Bytes) → (scan_segment c buf).stop ≢ out_of_fuel
unfolding scan_segment
scan_segment-ends c buf = scan_from-ends (length buf + 1) c buf 0 (omega arith) (omega arith)
