-- ===== src/Macos/Parse/Devices.antt =====
-- crates/wattwarden-platform/src/parse.rs: the battery's figures, the brightness and the network
-- device that the macOS tools print.
use wattwarden.Base.{
  ℕ, ◌*◌, ◌%◌, ◌^◌, Text, text, Bool, not, ◌&&◌, ◌||◌, Option, none, some, List, [], ◌∷◌, ◌++◌,
  ◌==◌, if◌then◌else◌, is_digit, is_empty, is_some, take_while, drop_while, contains, split,
  split_whitespace,
}
use wattwarden.Core.Float.{Float}
use wattwarden.Core.BatteryHealth.{BatteryHealth, charge_uah}
use wattwarden.Macos.Parse.{
  after_label, mac_number_opt, mac_number_after, mac_string_after, bind, only, or_try, or_default,
  of_option,
}

-- The JSON-like keys with their quotes.
abbrev key : Text → Text
key name = b'"' ∷ (name ++ text "\" =")

module _ {F : Type 0} (float : Float F) where
  abbrev is_zero : F → Bool
  is_zero x = float.le x (float.of_nat 0) && float.le (float.of_nat 0) x

  -- `|Current| * Voltage / 1e6`
  unfoldable pub mac_power_watts : Text → F
  unfolding mac_number_after
  mac_power_watts out =
      let current = float.abs (mac_number_after float out (key (text "Current"))) in
      let voltage = mac_number_after float out (key (text "Voltage")) in
      if is_zero current || is_zero voltage
      then float.of_nat 0
      else float.div (float.mul current voltage) (float.of_nat 1_000_000)

  abbrev scaled : Text → Text → Option ℕ
  scaled out name =
      of_option (λ v. float.as_usize v * 1000 % 2 ^ 64)
        (only (λ v. float.lt (float.of_nat 0) v) (mac_number_opt float out (key name)))

  unfoldable pub mac_health : Text → BatteryHealth F
  unfolding mac_number_after mac_string_after
  mac_health out =
      let full =
        or_try (scaled out (text "AppleRawMaxCapacity")) (scaled out (text "MaxCapacity")) in
      let design = scaled out (text "DesignCapacity") in
      let known = is_some full || is_some design in
      let has_cycles = contains out (key (text "CycleCount")) in
      record {
        present = known || has_cycles;
        full = full;
        design = design;
        unit = if known then some charge_uah else none;
        cycle_count =
            if has_cycles
            then some (float.as_u32 (mac_number_after float out (key (text "CycleCount"))))
            else none;
        temp_c =
            of_option (λ t. float.div t (float.of_nat 100))
              (mac_number_opt float out (key (text "Temperature")));
        model = mac_string_after out (key (text "DeviceName"));
        manufacturer = none;
        serial = mac_string_after out (key (text "BatterySerialNumber"));
      }

  -- `v.clamp(0.0, 100.0) as u8`
  abbrev percent_in : F → ℕ
  percent_in v =
      if float.lt v (float.of_nat 0)
      then 0
      else if float.lt (float.of_nat 100) v
      then 100
      else float.as_u32 v

  abbrev percent_or : Option F → ℕ
  percent_or none = 100
  percent_or (some v) = percent_in (float.mul v (float.of_nat 100))

  abbrev is_gap : ℕ → Bool
  is_gap c = (c == b' ') || (c == b'=')

  abbrev in_number : ℕ → Bool
  in_number c = is_digit c || (c == b'.')

  -- The number behind at least one space or equals sign.
  number_behind : Text → Option Text
  unfolding take_while drop_while
  number_behind [] = none
  number_behind (c ∷ s) =
      let number = take_while in_number (drop_while is_gap s) in
      if is_gap c && not (is_empty number) then some number else none

  unfoldable pub mac_brightness_percent : Text → ℕ
  unfolding after_label number_behind
  mac_brightness_percent out =
      percent_or (bind (bind (after_label out (text "brightness")) number_behind) float.parse)

abbrev names_port : Text → Bool
names_port line = contains line (text "Wi-Fi") || contains line (text "AirPort")

abbrev second : List Text → Option Text
second [] = none
second (u ∷ []) = none
second (u ∷ v ∷ words) = some v

-- The device in the line behind that of the port.
device_in : Text → Option Text
unfolding contains split_whitespace
device_in line = if contains line (text "Device:") then second (split_whitespace line) else none

device_from : List Text → Text
unfolding contains device_in
device_from [] = text "en0"
device_from (line ∷ []) = text "en0"
device_from (line ∷ next ∷ lines) =
    let later = device_from (next ∷ lines) in
    if names_port line then or_default later (device_in next) else later

-- The carriage return and the empty last line, which `lines` drops, change no test here.
unfoldable pub mac_wifi_device : Text → Text
unfolding split device_from
mac_wifi_device ports_output = device_from (split b'\n' ports_output)
