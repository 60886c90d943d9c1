-- ===== src/Daemon/Iso.antt =====
-- `unix_to_iso_utc`: the civil date of a day, for the time stamps of the CSV file.
pub mod Civil
pub mod Valid
use wattwarden.Base.{
  ℕ, zero, suc, ◌+◌, ◌-◌, ◌*◌, ◌/◌, ◌%◌, Text, text, List, [], ◌∷◌, ◌++◌, ltb, leb, if◌then◌else◌,
  to_string, length,
}

-- A day of the Gregorian calendar.
pub record Date : Type 0 where
  pub year : ℕ
  pub month : ℕ
  pub day : ℕ

-- The years of the computation begin in March; `doe` counts the days of an era of 400 years.
unfoldable pub year_of_era : ℕ → ℕ
year_of_era doe = (doe - doe / 1460 + doe / 36524 - doe / 146096) / 365

unfoldable pub day_of_year : ℕ → ℕ
day_of_year doe = let yoe = year_of_era doe in doe - (365 * yoe + yoe / 4 - yoe / 100)

abbrev pub month_from_march : ℕ → ℕ
month_from_march doy = (5 * doy + 2) / 153

-- The day `doy` of a year that begins in March, in its month `mp` counted from March.
dated : ℕ → ℕ → ℕ → Date
dated y mp doy =
    let month = if ltb mp 10 then mp + 3 else mp - 9 in
    record {
      year = y + (if leb month 2 then 1 else 0);
      month = month;
      day = doy - (153 * mp + 2) / 5 + 1;
    }

-- `days` since 1970-01-01
unfoldable pub civil : ℕ → Date
unfolding dated
civil days =
    let z = days + 719468 in
    let era = z / 146097 in
    let doe = z % 146097 in
    let doy = day_of_year doe in dated (year_of_era doe + era * 400) (month_from_march doy) doy

-- `{n:02}` and `{n:04}`: zeros on the left up to a width.
zeros : ℕ → Text
zeros zero = []
zeros (suc n) = b'0' ∷ zeros n

pad : ℕ → ℕ → Text
unfolding zeros
pad width n = let digits = to_string n in zeros (width - length digits) ++ digits

print_date : Date → Text
unfolding pad
print_date d = pad 4 d.year ++ text "-" ++ pad 2 d.month ++ text "-" ++ pad 2 d.day

print_time : ℕ → Text
unfolding pad
print_time rem =
    pad 2 (rem / 3600) ++ text ":" ++ pad 2 (rem % 3600 / 60) ++ text ":" ++ pad 2 (rem % 60)

-- The seconds come from a clock that is read as an unsigned number, so they are not negative.
unfoldable pub unix_to_iso_utc : ℕ → Text
unfolding print_date print_time
unix_to_iso_utc secs = print_date (civil (secs / 86400)) ++ text "T" ++ print_time (secs % 86400)
