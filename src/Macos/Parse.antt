-- ===== src/Macos/Parse.antt =====
-- crates/wattwarden-platform/src/parse.rs: what the macOS tools print, as numbers and words. A text
-- is the list of its bytes.
pub mod Remaining
pub mod Percent
pub mod Devices
use wattwarden.Base.{
  ℕ, zero, suc, ◌+◌, ◌-◌, ◌*◌, ◌%◌, ◌^◌, min, Text, text, text_eq, Bool, true, false, not, ◌&&◌,
  ◌||◌, Option, none, some, List, [], ◌∷◌, ◌++◌, length, drop, keep, leb, ltb, ◌==◌, if◌then◌else◌,
  is_empty, is_digit, is_some, take_while, drop_while, strip_prefix, starts_with, contains, split,
  split_whitespace, parse_unsigned,
}
use wattwarden.Core.Float.{Float}
use wattwarden.Core.BatteryHealth.{BatteryHealth, HealthUnit, charge_uah}

-- `out.find(label)`: what stands behind the first occurrence.
unfoldable pub after_label : Text → Text → Option Text
unfolding strip_prefix
after_label [] label = strip_prefix [] label
after_label (c ∷ s) label =
    let later = after_label s label in
    elim (strip_prefix (c ∷ s) label) [ some rest ↦ some rest | none ↦ later ]

-- A point with the digits behind it, of which there is at least one.
fraction : Text → Text
unfolding take_while
fraction [] = []
fraction (c ∷ s) =
    let digits = take_while is_digit s in
    if (c == b'.') && not (is_empty digits) then c ∷ digits else []

unsigned_numeral : Text → Option Text
unfolding take_while drop_while fraction
unsigned_numeral s =
    let digits = take_while is_digit s in
    if is_empty digits then none else some (digits ++ fraction (drop_while is_digit s))

abbrev with_sign : Option Text → Option Text
with_sign none = none
with_sign (some s) = some (b'-' ∷ s)

-- The longest numeral that the text begins with.
unfoldable pub numeral : Text → Option Text
unfolding unsigned_numeral
numeral [] = none
numeral (c ∷ s) = if c == b'-' then with_sign (unsigned_numeral s) else unsigned_numeral (c ∷ s)

abbrev is_separator : ℕ → Bool
is_separator c = (c == b':') || (c == b' ')

-- A numeral behind at least one colon or space.
numeral_after : Text → Option Text
unfolding drop_while numeral
numeral_after [] = none
numeral_after (c ∷ s) = if is_separator c then numeral (drop_while is_separator s) else none

-- `?`
abbrev bind {ℓ κ} : {A : Type ℓ} {B : Type κ} → Option A → (A → Option B) → Option B
bind none f = none
bind (some a) f = f a

-- `unwrap_or`
abbrev or_default {ℓ} : {A : Type ℓ} → A → Option A → A
or_default a none = a
or_default a (some b) = b

-- `filter`
abbrev only {ℓ} : {A : Type ℓ} → (A → Bool) → Option A → Option A
only p none = none
only p (some a) = if p a then some a else none

abbrev or_try {ℓ} : {A : Type ℓ} → Option A → Option A → Option A
or_try none o = o
or_try (some a) o = some a

abbrev of_option {ℓ κ} : {A : Type ℓ} {B : Type κ} → (A → B) → Option A → Option B
of_option f none = none
of_option f (some a) = some (f a)

module _ {F : Type 0} (float : Float F) where
  unfoldable pub mac_number_opt : Text → Text → Option F
  unfolding after_label numeral_after
  mac_number_opt out label = bind (bind (after_label out label) numeral_after) float.parse

  unfoldable pub mac_number_after : Text → Text → F
  unfolding mac_number_opt
  mac_number_after out label = or_default (float.of_nat 0) (mac_number_opt out label)

abbrev is_quote : ℕ → Bool
is_quote c = c == b'"'

abbrev not_quote : ℕ → Bool
not_quote c = not (is_quote c)

abbrev non_empty : Text → Option Text
non_empty [] = none
non_empty (c ∷ s) = some (c ∷ s)

-- What stands before the closing quote, if there is one.
quoted : Text → Option Text
unfolding take_while drop_while
quoted s = if is_empty (drop_while not_quote s) then none else non_empty (take_while not_quote s)

-- `rest.find('"')? + 1`
abbrev behind_quote : Text → Option Text
behind_quote [] = none
behind_quote (c ∷ s) = some s

unfoldable pub mac_string_after : Text → Text → Option Text
unfolding after_label quoted drop_while
mac_string_after out label =
    bind (after_label out label) λ rest. bind (behind_quote (drop_while not_quote rest)) quoted

abbrev not_percent : ℕ → Bool
not_percent c = not (c == b'%')

-- The digits among the last three bytes.
unfoldable pub last_digits : Text → Text
last_digits before = keep is_digit (drop (length before - 3) before)

abbrev percent_of : Option ℕ → ℕ
percent_of none = 100
percent_of (some v) = min v 100

unfoldable pub mac_battery_percent : Text → ℕ
unfolding take_while drop_while last_digits
mac_battery_percent pmset_batt =
    if is_empty (drop_while not_percent pmset_batt)
    then 100
    else percent_of (parse_unsigned (2 ^ 32) (last_digits (take_while not_percent pmset_batt)))

unfoldable pub mac_is_charging : Text → Bool
mac_is_charging pmset_batt =
    contains pmset_batt (text "AC Power") && not (contains pmset_batt (text "discharging"))

-- What the loop over the bytes has found; `out_of_fuel` is no answer of the program.
pub data Scan : Type 0 where
  found : Text → Scan
  not_found out_of_fuel : Scan

-- The minutes behind the colon, and where the loop goes on.
minutes_round : Text → Text → Text × Option Text
unfolding take_while drop_while starts_with
minutes_round hours s =
    let minutes = take_while is_digit s in
    let rest = drop_while is_digit s in
    if not (is_empty minutes) && starts_with rest (text " remaining")
    then (rest, some (hours ++ (b':' ∷ minutes)))
    else (rest, none)

hours_round : Text → Text → Text × Option Text
unfolding minutes_round
hours_round hours [] = ([], none)
hours_round hours (c ∷ s) = if c == b':' then minutes_round hours s else (c ∷ s, none)

-- One round of the loop at the byte `c`, with `s` behind it.
unfoldable pub scan_round : ℕ → Text → Text × Option Text
unfolding take_while drop_while hours_round
scan_round c s =
    if is_digit c
    then hours_round (c ∷ take_while is_digit s) (drop_while is_digit s)
    else (s, none)

abbrev or_later : Option Text → Scan → Scan
or_later (some t) later = found t
or_later none later = later

unfoldable pub scan : ℕ → Text → Scan
unfolding scan_round
scan zero s = out_of_fuel
scan (suc fuel) [] = not_found
scan (suc fuel) (c ∷ s) =
    let later = scan fuel (scan_round c s).0 in or_later (scan_round c s).1 later

abbrev time_of : Scan → Bool → Text
time_of (found t) charging = t
time_of not_found charging = if charging then text "Charging" else text "Calculating..."
time_of out_of_fuel charging = []

-- The loop has at most one round for each byte.
unfoldable pub mac_time_remaining : Text → Bool → Text
unfolding scan
mac_time_remaining pmset_batt charging =
    time_of (scan (suc (length pmset_batt)) pmset_batt) charging
