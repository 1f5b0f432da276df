-- ===== src/Wal/Scan/Tail.antt =====
-- About scanning whole records with other bytes behind them.
use native.Mathlib.Nat.{add-zero}
use mathlib.Core.List.{append_assoc}
use calod.Prelude.{
  ℕ, zero, suc, ◌+◌, ◌<◌, ◌≡◌, sym, ap, refl, ◌∙◌, List, [], ◌∷◌, ◌++◌, arith, length, drop,
  length-append,
}
use calod.Prelude.Cuts.{length-drop, drop_past}
use calod.Wal.Format.{Bytes, Crc32c, IsU32, ScanError, parse_one, parse_header, failed, header_len}
use calod.Wal.Format.RoundTrip.{length-encode_record}
use calod.Wal.Scan.{stopped, scan_from, scan_segment}
use calod.Wal.Scan.Ends.{scan_from-failed}
use calod.Wal.Scan.Written.{Entry, encode_entry, encode_all, located, Fits, one_more}
use calod.Wal.Scan.Prefix.{scan_from-whole, found_first}

module _ (c : Crc32c) (small : IsU32 c) (tail : Bytes) (why : ScanError)
    (some_left : 0 < length tail) where
  scan_from-encode_all-append :
      (es : List Entry)
      → Fits es
      → (fuel : ℕ) (buf : Bytes) (offset : ℕ) → drop offset buf ≡ encode_all c es ++ tail
      → length buf < offset + fuel
      → parse_header c (offset + length (encode_all c es)) tail ≡ failed why
      → scan_from fuel c buf offset ≡ record { found = located offset es; stop = stopped why }
  unfolding encode_all located parse_one
  scan_from-encode_all-append es fit zero buf offset rest enough refused =
      absurd (
        omega (arith, length-drop offset buf, ap length rest, length-append (encode_all c es) tail))
  scan_from-encode_all-append [] fit (suc fuel) buf offset rest enough refused =
      scan_from-failed fuel c buf offset why (omega (arith, length-drop offset buf, ap length rest))
        (ap (parse_header c offset) rest
          ∙ ap (λ at. parse_header c at tail) (sym (add-zero offset))
          ∙ refused)
  scan_from-encode_all-append (e ∷ es) (one_more small_e fit) (suc fuel) buf offset rest enough
        refused =
      let split : drop offset buf ≡ encode_entry c e ++ (encode_all c es ++ tail) =
        rest ∙ append_assoc (encode_entry c e) (encode_all c es) tail in
      let size : length (encode_entry c e) ≡ length e.payload + header_len =
        length-encode_record c e.record_type e.payload in
      let next = offset + header_len + length e.payload in
      let step : next ≡ offset + length (encode_entry c e) = omega arith in
      let moved : drop next buf ≡ encode_all c es ++ tail =
        rw step (drop_past offset buf (encode_entry c e) (encode_all c es ++ tail) split) in
      let at : offset + length (encode_entry c e ++ encode_all c es)
          ≡ next + length (encode_all c es) =
        omega (arith, length-append (encode_entry c e) (encode_all c es)) in
      scan_from-whole c small e small_e fuel buf offset (encode_all c es ++ tail) split
      ∙ ap (found_first offset e) (
          scan_from-encode_all-append es fit fuel buf next moved (omega arith)
            (ap (λ o. parse_header c o tail) (sym at) ∙ refused))

  pub scan_segment-encode_all-append :
      (es : List Entry)
      → Fits es
      → parse_header c (length (encode_all c es)) tail ≡ failed why
      → scan_segment c (encode_all c es ++ tail)
        ≡ record { found = located 0 es; stop = stopped why }
  unfolding scan_segment
  scan_segment-encode_all-append es fit refused =
      let buf = encode_all c es ++ tail in
      let at : 0 + length (encode_all c es) ≡ length (encode_all c es) = omega arith in
      scan_from-encode_all-append es fit (length buf + 1) buf 0 refl (omega arith)
        (ap (λ o. parse_header c o tail) at ∙ refused)
