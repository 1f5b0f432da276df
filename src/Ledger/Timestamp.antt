-- ===== src/Ledger/Timestamp.antt =====
-- RFC 3339 rendering of milliseconds: calod/crates/calod-ledger/src/digest.rs.
use calod.Prelude.{ℕ, ◌+◌, ◌-◌, ◌*◌, ◌/◌, ◌%◌, ◌++◌, Str, str, nat_beq, ltb, leb, if◌then◌else◌}
use calod.Prelude.Int.{ℤ, pos, negsuc, ◌+ℤ◌}
use calod.Prelude.Text.{zero_padded, zero_padded_ℤ}

-- `div_euclid` and `rem_euclid` by a positive number: floor division.
unfoldable pub div_euclid : ℤ → ℕ → ℤ
div_euclid (pos n) d = pos (n / d)
div_euclid (negsuc n) d = negsuc (n / d)

unfoldable pub rem_euclid : ℤ → ℕ → ℕ
rem_euclid (pos n) d = n % d
rem_euclid (negsuc n) d = d - 1 - n % d

-- The year, month and day of a day of the 400-year era that begins on 1 March. The year is that
-- of the era, counted from its March.
unfoldable pub civil_of_era : ℕ → ℕ × ℕ × ℕ
civil_of_era doe =
    let yoe = (doe - doe / 1460 + doe / 36524 - doe / 146096) / 365 in
    let doy = doe - (365 * yoe + yoe / 4 - yoe / 100) in
    let mp = (5 * doy + 2) / 153 in
    let day = doy - (153 * mp + 2) / 5 + 1 in
    let month = if ltb mp 10 then mp + 3 else mp - 9 in (yoe, month, day)

-- `era * 400`
unfoldable pub times400 : ℤ → ℤ
times400 (pos n) = pos (n * 400)
times400 (negsuc n) = negsuc (n * 400 + 399)

unfoldable pub civil_from_days : ℤ → ℤ × ℕ × ℕ
unfolding civil_of_era times400 div_euclid rem_euclid ◌+ℤ◌
civil_from_days days =
    let z = days +ℤ pos 719468 in
    let (yoe, month, day) = civil_of_era (rem_euclid z 146097) in
    let year = pos yoe +ℤ times400 (div_euclid z 146097) in
    (if leb month 2 then year +ℤ pos 1 else year, month, day)

unfoldable pub format_timestamp : ℤ → Str
unfolding civil_from_days zero_padded zero_padded_ℤ div_euclid rem_euclid
format_timestamp ms =
    let secs = div_euclid ms 1000 in
    let sub_ms = rem_euclid ms 1000 in
    let (year, month, day) = civil_from_days (div_euclid secs 86400) in
    let secs_of_day = rem_euclid secs 86400 in
    let date =
      zero_padded_ℤ 4 year ++ str "-" ++ zero_padded 2 month ++ str "-" ++ zero_padded 2 day in
    let time =
      zero_padded 2 (secs_of_day / 3600)
      ++ str ":"
      ++ zero_padded 2 (secs_of_day % 3600 / 60)
      ++ str ":"
      ++ zero_padded 2 (secs_of_day % 60) in
    let text = date ++ str "T" ++ time in
    if nat_beq sub_ms 0 then text ++ str "Z" else text ++ str "." ++ zero_padded 3 sub_ms ++ str "Z"
