-- ===== src/Tests/Dates.antt =====
-- Time stamps that the source's tests name.
use wattwarden.Base.{
  ℕ, ◌+◌, ◌/◌, ◌%◌, text, true, false, some, ◌∷◌, ◌≡◌, refl, ◌==◌, All-append, split, to_string,
}
use wattwarden.Core.BatteryHealth.{BatteryHealth, default_health, health_pct}
use wattwarden.Daemon.Health.Csv.{
  IsField-of, to_string-IsField, format_health_csv, fields, split-format_health_csv,
}
use wattwarden.Tests.Laptop.{milli}
use wattwarden.Daemon.Iso.{civil, year_of_era, day_of_year, unix_to_iso_utc}
use wattwarden.Daemon.Iso.Civil.{ordinal}
use wattwarden.Daemon.Iso.Valid.{IsDate, civil-ordinal}

epoch_stamp : unix_to_iso_utc 0 ≡ text "1970-01-01T00:00:00"
unfolding unix_to_iso_utc civil year_of_era day_of_year to_string
epoch_stamp = refl

leap_day_stamp : unix_to_iso_utc 1709164800 ≡ text "2024-02-29T00:00:00"
unfolding unix_to_iso_utc civil year_of_era day_of_year to_string
leap_day_stamp = refl

new_year_stamp : unix_to_iso_utc 1767225599 ≡ text "2025-12-31T23:59:59"
unfolding unix_to_iso_utc civil year_of_era day_of_year to_string
new_year_stamp = refl

civil-ordinal_example : IsDate (civil 19782) × (ordinal (civil 19782) ≡ 19782 + 719163)
civil-ordinal_example = civil-ordinal 19782

abbrev worn : BatteryHealth ℕ
worn = record default_health {
  present = true;
  full = some 40_000_000;
  design = some 50_000_000;
  temp_c = some 31_500;
}

split-format_health_csv_example :
    split b',' (format_health_csv milli (text "2024-02-29T12:00:00Z") worn 80 true)
    ≡ text "2024-02-29T12:00:00Z" ∷ fields milli worn 80 true
split-format_health_csv_example =
    split-format_health_csv milli (text "2024-02-29T12:00:00Z") worn 80 true
      (IsField-of (text "2024-02-29T12:00:00Z") refl) (λ x. to_string-IsField (x / 1000))
      (λ x.
        All-append (λ c. (c == b',') ≡ false) (to_string (x / 1000))
          (b'.' ∷ to_string (x % 1000 / 100)) (to_string-IsField (x / 1000))
          (refl, to_string-IsField (x % 1000 / 100)))

line_of_worn :
    format_health_csv milli (text "now") worn 80 true
    ≡ text
        "now,health=80,full=40000000,design=50000000,cycles=na,capacity=80,charging=true,temp=31.5"
unfolding format_health_csv health_pct to_string
line_of_worn = refl
