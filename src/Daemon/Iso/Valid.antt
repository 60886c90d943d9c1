-- ===== src/Daemon/Iso/Valid.antt =====
-- The month and the day of a computed date are in range.
use wattwarden.Base.{
  ℕ, ◌+◌, ◌-◌, ◌*◌, ◌/◌, ◌%◌, ◌≤◌, ◌<◌, ◌≡◌, inl, inr, refl, ap, ◌∙◌, arith, true, false, ltb, leb,
  ◌==◌, Bool-cases,
}
use wattwarden.Daemon.Iso.{Date, year_of_era, day_of_year, month_from_march, dated, civil}
use wattwarden.Daemon.Iso.Civil.{
  is_leap, leap_day, days_in_month, ordinal, doy_bounds, doy_leap, ordinal-civil,
}

-- A date of the calendar.
pub record IsDate (d : Date) : Type 0 where
  pub month_from : 1 ≤ d.month
  pub month_to : d.month ≤ 12
  pub day_from : 1 ≤ d.day
  pub day_to : d.day ≤ days_in_month d.year d.month

length_spring :
    (y mp : ℕ) → mp ≤ 9 → days_in_month y (mp + 3) + (153 * mp + 2) / 5 ≡ (153 * (mp + 1) + 2) / 5
unfolding days_in_month
length_spring y mp h = ground arith

dated_spring-IsDate : (y mp doy : ℕ) → mp ≤ 9 → mp ≡ month_from_march doy → IsDate (dated y mp doy)
unfolding dated
dated_spring-IsDate y mp doy h m =
    let early : ltb mp 10 ≡ true = ground arith in
    let spring_month : leb (mp + 3) 2 ≡ false = ground arith in
    let same_year : y + 0 ≡ y = omega arith in
    rw (early, spring_month, same_year)
      (record {
        month_from = omega arith;
        month_to = omega arith;
        day_from = omega arith;
        day_to = omega (arith, length_spring y mp h);
      })

length_january : (y : ℕ) → days_in_month y 1 ≡ 31
unfolding days_in_month
length_january y = refl

length_february : (y : ℕ) → is_leap y ≡ true → days_in_month y 2 ≡ 29
unfolding days_in_month leap_day
length_february y long = rw long refl

february_from : (y : ℕ) → 28 ≤ days_in_month y 2
unfolding days_in_month leap_day
february_from y = ground arith

-- A day of January or February, in a year that is as long as it has to be.
winter_day :
    (y mp doy : ℕ)
    → 10 ≤ mp
    → mp ≡ month_from_march doy
    → doy ≤ 365
    → (doy ≡ 365 → is_leap y ≡ true)
    → doy - (153 * mp + 2) / 5 + 1 ≤ days_in_month y (mp - 9)
winter_day y mp doy h m short long = elim (Bool-cases (mp == 10)) [
  | inl january ↦ let ten : mp ≡ 10 = ground arith in rw ten (omega (arith, length_january y))
  | inr february ↦
      let eleven : mp ≡ 11 = ground arith in
      rw eleven (elim (Bool-cases (doy == 365)) [
        | inl last ↦ omega (arith, length_february y (long (ground arith)))
        | inr before ↦ let low : doy ≤ 364 = ground arith in omega (arith, february_from y)
      ])
]

dated_winter-IsDate :
    (y mp doy : ℕ)
    → 10 ≤ mp
    → mp ≡ month_from_march doy
    → doy ≤ 365
    → (doy ≡ 365 → is_leap (y + 1) ≡ true)
    → IsDate (dated y mp doy)
unfolding dated
dated_winter-IsDate y mp doy h m short long =
    let late : ltb mp 10 ≡ false = ground arith in
    let winter_month : leb (mp - 9) 2 ≡ true = ground arith in
    rw (late, winter_month)
      (record {
        month_from = omega arith;
        month_to = omega arith;
        day_from = omega arith;
        day_to = winter_day (y + 1) mp doy h m short long;
      })

-- Leap years repeat every 400 years.
is_leap_era : (y e : ℕ) → is_leap (y + e * 400) ≡ is_leap y
is_leap_era y e =
    let four : (y + e * 400) % 4 ≡ y % 4 = omega arith in
    let hundred : (y + e * 400) % 100 ≡ y % 100 = omega arith in
    let all : (y + e * 400) % 400 ≡ y % 400 = omega arith in rw (four, hundred, all) refl

-- The computed date is one of the calendar: its month is in 1..=12, and its day between 1 and the
-- length of the month in that year.
civil-IsDate : (days : ℕ) → IsDate (civil days)
unfolding civil
civil-IsDate days =
    let era = (days + 719468) / 146097 in
    let doe = (days + 719468) % 146097 in
    let inside : doe < 146097 = omega arith in
    let (whole, short) = doy_bounds doe inside in
    let yoe = year_of_era doe in
    let doy = day_of_year doe in
    let moved : yoe + era * 400 + 1 ≡ yoe + 1 + era * 400 = omega arith in
    let long : doy ≡ 365 → is_leap (yoe + era * 400 + 1) ≡ true =
      λ last. ap is_leap moved ∙ is_leap_era (yoe + 1) era ∙ doy_leap doe inside last in
    elim (Bool-cases (leb (month_from_march doy) 9)) [
      | inl early ↦
          dated_spring-IsDate (yoe + era * 400) (month_from_march doy) doy (ground arith) refl
      | inr late ↦
          dated_winter-IsDate (yoe + era * 400) (month_from_march doy) doy (ground arith) refl short
            long
    ]

-- The date that is computed for a day since 1970-01-01 is one of the Gregorian calendar (its month is in
-- 1..=12, and its day between 1 and the length of the month in that year), and its number, counted from
-- 0001-01-01, is that of the day.
pub civil-ordinal : (days : ℕ) → IsDate (civil days) × (ordinal (civil days) ≡ days + 719163)
civil-ordinal days = (civil-IsDate days, ordinal-civil days)
