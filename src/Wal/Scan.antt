-- ===== src/Wal/Scan.antt =====
-- Scanning a segment: calod/crates/calod-storage/src/wal.rs.
pub mod Written
pub mod Ends
pub mod Prefix
pub mod Tail
use calod.Prelude.{ℕ, zero, suc, ◌+◌, List, [], ◌∷◌, ltb, true, false, length}
use calod.Wal.Format.{
  Bytes, Crc32c, RecordType, ScanError, ParsedRecord, Parsed, parsed, failed, parse_one,
}

-- What `on_record` is called with.
pub record Found : Type 0 where
  pub offset : ℕ
  pub record_type : RecordType
  pub payload : Bytes

-- How the loop ends; `out_of_fuel` is an artefact of the model.
pub data Stop : Type 0 where
  finished : Stop
  stopped : ScanError → Stop
  out_of_fuel : Stop

-- The records found, in order, and the end of the loop.
pub record Scanned : Type 0 where
  pub found : List Found
  pub stop : Stop

unfoldable pub scan_from : ℕ → Crc32c → Bytes → ℕ → Scanned
scan_from zero c buf offset = record { found = []; stop = out_of_fuel }
scan_from (suc fuel) c buf offset = elim (ltb offset (length buf)) [
  | false ↦ record { found = []; stop = finished }
  | true ↦ elim (parse_one c buf offset) [
    | failed e ↦ record { found = []; stop = stopped e }
    | parsed r ↦
        let rest = scan_from fuel c buf r.next_offset in
        record rest {
          found =
              record { offset = offset; record_type = r.record_type; payload = r.payload }
              ∷ rest.found;
        }
  ]
]

-- Every round moves the offset forward, so one round for each byte is enough.
unfoldable pub scan_segment : Crc32c → Bytes → Scanned
unfolding scan_from
scan_segment c buf = scan_from (length buf + 1) c buf 0
