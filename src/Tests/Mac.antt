-- ===== src/Tests/Mac.antt =====
-- The macOS backend on a system of which only the charge ceiling is kept.
use wattwarden.Base.{
  ℕ, suc, ◌^◌, Text, text, true, false, Option, none, some, List, [], ◌∷◌, ◌++◌, ◌≡◌, ◌≢◌, ◌↔◌,
  refl, arith, length, if◌then◌else◌, clamp, to_string, contains, parse_unsigned,
}
use wattwarden.Core.Error.{ok}
use wattwarden.Macos.{Shell, supports_threshold, set_charge_threshold}
use wattwarden.Macos.Reported.{told, set_charge_threshold-Reported}
use wattwarden.Macos.Parse.{
  out_of_fuel, scan, mac_battery_percent, mac_is_charging, mac_time_remaining,
}
use wattwarden.Macos.Parse.Devices.{mac_power_watts, mac_health, mac_wifi_device}
use wattwarden.Macos.Parse.Percent.{mac_battery_percent-printed}
use wattwarden.Macos.Parse.Remaining.{IsRemaining, mac_time_remaining_ends}
use wattwarden.Tests.Laptop.{milli}

abbrev sample : Text
sample =
    text
      "Now drawing from 'Battery Power'\n -InternalBattery-0 (id=1) 82%; discharging; 4:12 remaining"

sample_percent : mac_battery_percent sample ≡ 82
unfolding mac_battery_percent parse_unsigned
sample_percent = refl

sample_time : mac_time_remaining sample false ≡ text "4:12"
unfolding mac_time_remaining
sample_time = refl

sample_charging : mac_is_charging sample ≡ false
unfolding mac_is_charging contains
sample_charging = refl

sample_watts : mac_power_watts milli (text "\"Current\" = 1000\n\"Voltage\" = 12000") ≡ 12000
unfolding mac_power_watts parse_unsigned
sample_watts = refl

sample_health :
    (mac_health milli (text "\"MaxCapacity\" = 3900\n\"CycleCount\" = 0")).full ≡ some 3_900_000
unfolding mac_health parse_unsigned contains
sample_health = refl

sample_device : mac_wifi_device (text "Hardware Port: Wi-Fi\nDevice: en1\n") ≡ text "en1"
unfolding mac_wifi_device contains
sample_device = refl

mac_time_remaining_ends_example :
    (scan (suc (length sample)) sample ≢ out_of_fuel)
    × IsRemaining sample false (mac_time_remaining sample false)
mac_time_remaining_ends_example = mac_time_remaining_ends sample false

mac_battery_percent-printed_example :
    mac_battery_percent ((text "id=1" ++ (b')' ∷ b' ' ∷ to_string 82)) ++ (b'%' ∷ text "; 5%")) ≡ 82
mac_battery_percent-printed_example =
    mac_battery_percent-printed (text "id=1") (text "; 5%") b')' b' ' 82
      (refl, (refl, (refl, (refl, tt)))) refl refl refl refl (omega arith)

abbrev number_of : Option ℕ → ℕ
number_of none = 100
number_of (some n) = n

-- The helper with the ceiling that the system keeps.
abbrev shell : Shell ℕ
shell = record {
  ask = λ program args n. to_string n;
  run = λ program args n. stored args n;
  has_program = λ program n. true;
  parallelism = 8;
}
  where
    stored : List Text → ℕ → ℕ
    stored [] n = n
    stored (word ∷ []) n = n
    stored (word ∷ value ∷ args) n = number_of (parse_unsigned 256 value)

set_charge_threshold-Reported_example :
    (((set_charge_threshold shell 80 100).1 ≡ ok tt) ↔ (
      (supports_threshold shell 100 ≡ true)
      × (parse_unsigned (2 ^ 8) (shell.ask (text "bclm") (text "read" ∷ []) (told shell 80 100))
          ≡ some (clamp 80 20 100))))
    × ((set_charge_threshold shell 80 100).0
        ≡ (if supports_threshold shell 100 then told shell 80 100 else 100))
set_charge_threshold-Reported_example = set_charge_threshold-Reported shell 80 100

sets_80 : set_charge_threshold shell 80 100 ≡ (80, ok tt)
unfolding set_charge_threshold to_string parse_unsigned
sets_80 = refl
