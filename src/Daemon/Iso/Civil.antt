-- ===== src/Daemon/Iso/Civil.antt =====
-- The computed date is the right one.
use wattwarden.Base.{
  ℕ, ◌+◌, ◌-◌, ◌*◌, ◌/◌, ◌%◌, ◌≤◌, ◌<◌, ◌≡◌, inl, inr, refl, arith, Bool, true, false, ◌&&◌, ◌||◌,
  not, ◌==◌, ltb, leb, if◌then◌else◌, Bool-cases,
}
use wattwarden.Daemon.Iso.{Date, year_of_era, day_of_year, month_from_march, dated, civil}

-- The rules of the Gregorian calendar.
abbrev pub is_leap : ℕ → Bool
is_leap y = (y % 4 == 0) && not (y % 100 == 0) || (y % 400 == 0)

unfoldable pub leap_day : ℕ → ℕ
leap_day y = if is_leap y then 1 else 0

unfoldable pub days_in_month : ℕ → ℕ → ℕ
unfolding leap_day
days_in_month y m =
    if m == 2
    then 28 + leap_day y
    else if (m == 4) || (m == 6) || (m == 9) || (m == 11)
    then 30
    else 31

-- Days before the first of January, from the year 1 on.
pub days_before_year : ℕ → ℕ
days_before_year y = 365 * (y - 1) + (y - 1) / 4 - (y - 1) / 100 + (y - 1) / 400

-- Days from the first of March to the first of a later month.
since_march : ℕ → ℕ
since_march m =
    if m == 3
    then 0
    else if m == 4
    then 31
    else if m == 5
    then 61
    else if m == 6
    then 92
    else if m == 7
    then 122
    else if m == 8
    then 153
    else if m == 9
    then 184
    else if m == 10
    then 214
    else if m == 11
    then 245
    else 275

-- Days before the first of a month.
pub days_before_month : ℕ → ℕ → ℕ
unfolding leap_day since_march
days_before_month y m = if m == 1 then 0 else if m == 2 then 31 else 59 + leap_day y + since_march m

-- The number of a day, where 0001-01-01 is the first.
unfoldable pub ordinal : Date → ℕ
unfolding days_before_year days_before_month
ordinal d = days_before_year d.year + days_before_month d.year d.month + d.day

-- Days before the year `y` of an era that begins in March.
abbrev pub before_year : ℕ → ℕ
before_year y = 365 * y + y / 4 - y / 100

pub year_bounds :
    (doe : ℕ) → doe < 146097 → (year_of_era doe ≤ 399) × (before_year (year_of_era doe) ≤ doe)
unfolding year_of_era
year_bounds doe h = (omega arith, omega arith)

pub doy_bounds :
    (doe : ℕ)
    → doe < 146097
    → (doe ≡ before_year (year_of_era doe) + day_of_year doe) × (day_of_year doe ≤ 365)
unfolding day_of_year year_of_era
doy_bounds doe h = (omega arith, omega arith)

-- The last day of a long year is the 29th of February.
pub doy_leap :
    (doe : ℕ) → doe < 146097 → day_of_year doe ≡ 365 → is_leap (year_of_era doe + 1) ≡ true
unfolding day_of_year year_of_era
doy_leap doe h e = ground arith

one_if : Bool → ℕ
one_if b = if b then 1 else 0

bump4 : (y : ℕ) → 1 ≤ y → y / 4 ≡ (y - 1) / 4 + one_if (y % 4 == 0)
unfolding one_if
bump4 y h = ground arith

bump100 : (y : ℕ) → 1 ≤ y → y / 100 ≡ (y - 1) / 100 + one_if (y % 100 == 0)
unfolding one_if
bump100 y h = ground arith

bump400 : (y : ℕ) → 1 ≤ y → y / 400 ≡ (y - 1) / 400 + one_if (y % 400 == 0)
unfolding one_if
bump400 y h = ground arith

leap_sum :
    (y : ℕ) → leap_day y + one_if (y % 100 == 0) ≡ one_if (y % 4 == 0) + one_if (y % 400 == 0)
unfolding one_if leap_day
leap_sum y = ground arith

leap_le : (y : ℕ) → leap_day y ≤ 1
unfolding leap_day
leap_le y = ground arith

year_step : (y : ℕ) → 1 ≤ y → days_before_year (y + 1) ≡ days_before_year y + 365 + leap_day y
unfolding days_before_year
year_step y h = omega (arith, bump4 y h, bump100 y h, bump400 y h, leap_sum y)

january : (y e : ℕ) → y ≤ 399 → days_before_year (y + e * 400 + 1) ≡ 146097 * e + before_year y
unfolding days_before_year
january y e k = omega arith

march_table : (mp : ℕ) → mp ≤ 9 → since_march (mp + 3) ≡ (153 * mp + 2) / 5
unfolding since_march
march_table mp h = ground arith

months_spring :
    (y mp : ℕ) → mp ≤ 9 → days_before_month y (mp + 3) ≡ 59 + leap_day y + (153 * mp + 2) / 5
unfolding days_before_month
months_spring y mp h = ground (arith, march_table mp h)

-- The number of a day of the year `y` of the era `e`, from March to December.
spring :
    (y e doe doy mp : ℕ)
    → y ≤ 399
    → 1 ≤ e
    → doe ≡ before_year y + doy
    → mp ≡ month_from_march doy
    → mp ≤ 9
    → days_before_year (y + e * 400)
        + days_before_month (y + e * 400) (mp + 3)
        + (doy - (153 * mp + 2) / 5 + 1)
        + 305
      ≡ 146097 * e + doe
spring y e doe doy mp h first split m late = omega (
  arith,
  january y e h,
  year_step (y + e * 400) (omega arith),
  months_spring (y + e * 400) mp late,
)

months_winter :
    (y mp : ℕ) → 10 ≤ mp → mp ≤ 11 → days_before_month y (mp - 9) + 306 ≡ (153 * mp + 2) / 5
unfolding days_before_month
months_winter y mp h k = ground arith

-- January and February belong to the next year.
winter :
    (y e doe doy mp : ℕ)
    → y ≤ 399
    → 1 ≤ e
    → doe ≡ before_year y + doy
    → mp ≡ month_from_march doy
    → 10 ≤ mp
    → doy ≤ 365
    → days_before_year (y + e * 400 + 1)
        + days_before_month (y + e * 400 + 1) (mp - 9)
        + (doy - (153 * mp + 2) / 5 + 1)
        + 305
      ≡ 146097 * e + doe
winter y e doe doy mp h first split m late short =
    omega (arith, january y e h, months_winter (y + e * 400 + 1) mp late (omega arith))

dated_spring :
    (y mp doy : ℕ)
    → mp ≤ 9
    → ordinal (dated y mp doy)
      ≡ days_before_year y + days_before_month y (mp + 3) + (doy - (153 * mp + 2) / 5 + 1)
unfolding ordinal dated
dated_spring y mp doy h =
    let early : ltb mp 10 ≡ true = ground arith in
    let spring_month : leb (mp + 3) 2 ≡ false = ground arith in
    let same_year : y + 0 ≡ y = omega arith in rw (early, spring_month, same_year) refl

dated_winter :
    (y mp doy : ℕ)
    → 10 ≤ mp
    → mp ≤ 11
    → ordinal (dated y mp doy)
      ≡ days_before_year (y + 1)
        + days_before_month (y + 1) (mp - 9)
        + (doy - (153 * mp + 2) / 5 + 1)
unfolding ordinal dated
dated_winter y mp doy h k =
    let late : ltb mp 10 ≡ false = ground arith in
    let winter_month : leb (mp - 9) 2 ≡ true = ground arith in rw (late, winter_month) refl

dated-ordinal :
    (y e doe doy mp : ℕ)
    → y ≤ 399
    → 1 ≤ e
    → doe ≡ before_year y + doy
    → mp ≡ month_from_march doy
    → doy ≤ 365
    → ordinal (dated (y + e * 400) mp doy) + 305 ≡ 146097 * e + doe
dated-ordinal y e doe doy mp h first split m short = elim (Bool-cases (leb mp 9)) [
  | inl early ↦
      let low : mp ≤ 9 = ground arith in
      omega
        (arith, dated_spring (y + e * 400) mp doy low, spring y e doe doy mp h first split m low)
  | inr late ↦
      let high : 10 ≤ mp = ground arith in
      omega (
        arith,
        dated_winter (y + e * 400) mp doy high (omega arith),
        winter y e doe doy mp h first split m high short,
      )
]

-- The number of the computed date, counted from 0001-01-01, is that of the day since 1970-01-01.
pub ordinal-civil : (days : ℕ) → ordinal (civil days) ≡ days + 719163
unfolding civil
ordinal-civil days =
    let era = (days + 719468) / 146097 in
    let doe = (days + 719468) % 146097 in
    let inside : doe < 146097 = omega arith in
    let (whole, short) = doy_bounds doe inside in
    let years = (year_bounds doe inside).0 in
    let doy = day_of_year doe in
    let sum =
      dated-ordinal (year_of_era doe) era doe doy (month_from_march doy) years (omega arith) whole
        refl short in
    omega (arith, sum)
