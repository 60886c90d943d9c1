-- ===== src/Battery/Power.antt =====
-- crates/wattwarden-platform/src/linux/battery.rs: what the battery delivers and how long it lasts.
use wattwarden.Base.{
  ℕ, Text, text, text_eq, Bool, false, ◌||◌, Option, none, some, List, [], ◌∷◌, ◌++◌, ◌==◌,
  is_empty, if◌then◌else◌, trim, split, ltb, ℤ, pos, negsuc, to_string, to_string_ℤ,
}
use wattwarden.Core.Float.{Float}
use wattwarden.Sysfs.{World, uevent, power_now, current_now, voltage_now, energy_now, charge_now}
use wattwarden.Core.Error.{Result, ok, unwrap_or}
use wattwarden.Battery.{LinuxBattery, bat, is_charging}

abbrev push_front : ℕ → Option (Text × Text) → Option (Text × Text)
push_front c none = none
push_front c (some (k, v)) = some (c ∷ k, v)

-- `split_once(sep)`
split_once : ℕ → Text → Option (Text × Text)
split_once sep [] = none
split_once sep (c ∷ s) =
    let later = split_once sep s in if c == sep then some ([], s) else push_front c later

abbrev Entries : Type 0
Entries = List (Text × Text)

-- An entry of a map is inserted in front of the older ones.
insert_line : Text → Entries → Entries
unfolding split_once
insert_line line entries = elim (split_once b'=' line) [
  | none ↦ entries
  | some (k, v) ↦ (trim k, trim v) ∷ entries
]

insert_lines : List Text → Entries → Entries
unfolding insert_line
insert_lines [] entries = entries
insert_lines (line ∷ lines) entries = insert_lines lines (insert_line line entries)

-- The key-value lines of the node `uevent`. The carriage return that `lines` drops is white space,
-- and a last line that is empty has no entry.
unfoldable pub parse_uevent : LinuxBattery → World → List (Text × Text)
unfolding insert_lines
parse_uevent b w = insert_lines (split 10 (bat b w uevent)) []

-- `unwrap_or_default`
unfoldable pub uevent_get : List (Text × Text) → Text → Text
uevent_get [] key = []
uevent_get ((k, v) ∷ entries) key =
    let older = uevent_get entries key in if text_eq k key then v else older

abbrev not_both : Text → Text → Bool
not_both a b = is_empty a || is_empty b

-- `{m:02}`
pad2 : ℤ → Text
pad2 (pos m) = if ltb m 10 then b'0' ∷ to_string m else to_string m
pad2 (negsuc m) = to_string_ℤ (negsuc m)

module _ {F : Type 0} (float : Float F) where
  open float use {of_nat, mul, div, sub, abs, lt, as_i64, of_int, parse}

  or_zero : Option F → F
  or_zero none = of_nat 0
  or_zero (some x) = x

  -- Hours as `{h}h {m:02}m`.
  unfoldable pub format_hours : F → Text
  unfolding pad2
  format_hours hours =
      let h = as_i64 hours in
      let m = as_i64 (mul (sub hours (of_int h)) (of_nat 60)) in
      to_string_ℤ h ++ (text "h " ++ (pad2 m ++ text "m"))

  -- A power in microwatts, where the text is one.
  power_of : Text → Option F
  power_of s =
      if is_empty s
      then none
      else elim (parse s) [ none ↦ none | some p ↦ some (div (abs p) (of_nat 1_000_000)) ]

  -- A current in microamperes by a voltage in microvolts, where both are there.
  product_of : Text → Text → Option F
  unfolding or_zero
  product_of c v =
      if is_empty c || is_empty v
      then none
      else some (div (abs (mul (or_zero (parse c)) (or_zero (parse v)))) (of_nat 1_000_000_000_000))

  first_of : Option F → F → F
  first_of none other = other
  first_of (some x) other = x

  unfoldable pub consumption_watts : LinuxBattery → World → Result F
  unfolding power_of product_of first_of
  consumption_watts b w =
      let e = parse_uevent b w in
      ok (
        first_of (power_of (bat b w power_now)) (
          first_of (product_of (bat b w current_now) (bat b w voltage_now)) (
            first_of (power_of (uevent_get e (text "POWER_SUPPLY_POWER_NOW"))) (
              first_of
                (product_of (uevent_get e (text "POWER_SUPPLY_CURRENT_NOW"))
                  (uevent_get e (text "POWER_SUPPLY_VOLTAGE_NOW")))
                (of_nat 0)))))

  -- The hours that an energy lasts at a power, where there is one.
  hours_at : F → F → Text
  unfolding format_hours
  hours_at energy power =
      if lt (of_nat 0) power then format_hours (div energy power) else text "Calculating..."

  from_energy : Text → Text → Text
  unfolding or_zero hours_at
  from_energy energy power = hours_at (or_zero (parse energy)) (abs (or_zero (parse power)))

  from_charge : Text → Text → Text → Text
  unfolding or_zero hours_at
  from_charge charge current voltage =
      if is_empty charge || is_empty current || is_empty voltage
      then text "Calculating..."
      else let volts = div (or_zero (parse voltage)) (of_nat 1_000_000) in
        hours_at (mul (or_zero (parse charge)) volts) (mul (abs (or_zero (parse current))) volts)

  -- From the entries of `uevent`, and where those do not do, from the nodes of charge and current.
  from_uevent : LinuxBattery → World → List (Text × Text) → Text
  unfolding from_energy from_charge
  from_uevent b w e =
      let energy = uevent_get e (text "POWER_SUPPLY_ENERGY_NOW") in
      let power = uevent_get e (text "POWER_SUPPLY_POWER_NOW") in
      let charge = uevent_get e (text "POWER_SUPPLY_CHARGE_NOW") in
      let current = uevent_get e (text "POWER_SUPPLY_CURRENT_NOW") in
      let voltage = uevent_get e (text "POWER_SUPPLY_VOLTAGE_NOW") in
      if not_both energy power
      then if is_empty charge || is_empty current || is_empty voltage
        then from_charge (bat b w charge_now) (bat b w current_now) (bat b w voltage_now)
        else from_charge charge current voltage
      else from_energy energy power

  unfoldable pub time_remaining : LinuxBattery → World → Result Text
  unfolding from_energy from_uevent
  time_remaining b w = ok (
      if unwrap_or false (is_charging b w)
      then text "Charging"
      else if not_both (bat b w energy_now) (bat b w power_now)
      then from_uevent b w (parse_uevent b w)
      else from_energy (bat b w energy_now) (bat b w power_now))
