-- ===== src/Macos.antt =====
-- crates/wattwarden-platform/src/macos/mod.rs: the backend that calls the tools of macOS. `Shell` is
-- exec.rs: a command that asks leaves the system as it is, one that is run may change it.
pub mod Parse
pub mod Reported
pub mod Fixed
use wattwarden.Base.{
  ℕ, ◌+◌, ◌/◌, ◌%◌, ◌^◌, Text, text, text_eq, Bool, true, false, not, Option, none, some, List, [],
  ◌∷◌, ◌++◌, clamp, if◌then◌else◌, to_string, parse_unsigned, trim, trim_matches, to_lowercase,
  contains, split_whitespace, ◌||◌, ◌==◌,
}
use wattwarden.Core.Error.{Result, ok, err, Done, WattWardenError, is_ok, unsupported}
use wattwarden.Core.Config.{PowerProfile, normal, performance, extreme, auto_extreme}
use wattwarden.Core.Float.{Float}
use wattwarden.Core.BatteryHealth.{BatteryHealth}
use wattwarden.Core.Traits.{ChargeThreshold, PowerSource, HardwareCapabilities}
use wattwarden.Macos.Parse.{mac_battery_percent, mac_is_charging, mac_time_remaining}
use wattwarden.Macos.Parse.Devices.{
  mac_power_watts, mac_health, mac_brightness_percent, mac_wifi_device,
}

pub record Shell (H : Type 0) : Type 0 where
  -- `run_capture` of a command that only reports: its trimmed output, empty on a failure
  pub ask : Text → List Text → H → Text
  -- `run_ignored`, and `run_capture` where the output is thrown away
  pub run : Text → List Text → H → H
  pub has_program : Text → H → Bool
  -- `available_parallelism`, one if it is not known
  pub parallelism : ℕ

abbrev batt : List Text
batt = text "-g" ∷ text "batt" ∷ []

abbrev smart_battery : List Text
smart_battery = text "-rn" ∷ text "AppleSmartBattery" ∷ []

-- `format!("{:.2}", p / 100)` of a percentage
unfoldable pub two_decimals : ℕ → Text
two_decimals p = to_string (p / 100) ++ (b'.' ∷ (b'0' + p / 10 % 10) ∷ (b'0' + p % 10) ∷ [])

abbrev switch : Bool → Text → Text → Text
switch true on off = on
switch false on off = off

abbrev first_word : List Text → Text
first_word [] = []
first_word (word ∷ words) = word

abbrev or_zero : {F : Type 0} → Float F → Option F → F
or_zero float none = float.of_nat 0
or_zero float (some x) = x

-- `parse::<u8>`
abbrev u8_or_unsupported : Option ℕ → Result ℕ
u8_or_unsupported none = err unsupported
u8_or_unsupported (some n) = ok n

module _ {H : Type 0} (sh : Shell H) where
  open sh use {ask, run, has_program, parallelism}

  unfoldable pub battery_percentage : H → Result ℕ
  battery_percentage h = ok (mac_battery_percent (ask (text "pmset") batt h))

  unfoldable pub is_charging : H → Result Bool
  is_charging h = ok (mac_is_charging (ask (text "pmset") batt h))

  unfoldable pub time_remaining : H → Result Text
  time_remaining h =
      let out = ask (text "pmset") batt h in ok (mac_time_remaining out (mac_is_charging out))

  unfoldable pub is_stationary : H → Bool
  is_stationary h = not (contains (ask (text "pmset") batt h) (text "InternalBattery"))

  unfoldable pub consumption_watts : {F : Type 0} → Float F → H → Result F
  consumption_watts float h = ok (mac_power_watts float (ask (text "ioreg") smart_battery h))

  unfoldable pub health : {F : Type 0} → Float F → H → Result (BatteryHealth F)
  health float h = ok (mac_health float (ask (text "ioreg") smart_battery h))

  unfoldable pub macos_battery : PowerSource H
  unfolding battery_percentage is_charging
  macos_battery = record { battery_percentage = battery_percentage; is_charging = is_charging }

  unfoldable pub brightness_percent : {F : Type 0} → Float F → H → Result ℕ
  brightness_percent float h =
      ok (mac_brightness_percent float (ask (text "brightness") (text "-l" ∷ []) h))

  unfoldable pub set_brightness_percent : ℕ → H → H × Done
  unfolding two_decimals
  set_brightness_percent percent h =
      (run (text "brightness") (two_decimals (clamp percent 1 100) ∷ []) h, ok tt)

  unfoldable pub supports_threshold : H → Bool
  supports_threshold h = has_program (text "bclm") h

  unfoldable pub charge_threshold : H → Result ℕ
  charge_threshold h =
      u8_or_unsupported (parse_unsigned (2 ^ 8) (ask (text "bclm") (text "read" ∷ []) h))

  abbrev check_readback : ℕ → Result ℕ → Done
  check_readback value (ok n) = if n == value then ok tt else err unsupported
  check_readback value (err e) = err e

  unfoldable pub set_charge_threshold : ℕ → H → H × Done
  unfolding supports_threshold charge_threshold
  set_charge_threshold threshold h =
      let clamped = clamp threshold 20 100 in
      let written = run (text "bclm") (text "write" ∷ to_string clamped ∷ []) h in
      if supports_threshold h
      then (written, check_readback clamped (charge_threshold written))
      else (h, err unsupported)

  unfoldable pub macos_threshold : ChargeThreshold H
  unfolding supports_threshold charge_threshold set_charge_threshold
  macos_threshold = record {
    supports_threshold = supports_threshold;
    charge_threshold = charge_threshold;
    set_charge_threshold = set_charge_threshold;
  }

  abbrev power_state : List Text
  power_state = text "/Library/Preferences/com.apple.Bluetooth" ∷ text "ControllerPowerState" ∷ []

  unfoldable pub bluetooth_enabled : H → Result Bool
  bluetooth_enabled h =
      ok (not (text_eq (trim (ask (text "defaults") (text "read" ∷ power_state) h)) (text "0")))

  unfoldable pub set_bluetooth_enabled : Bool → H → H × Done
  set_bluetooth_enabled enabled h =
      let value = switch enabled (text "1") (text "0") in
      (
        run (text "blueutil") (text "--power" ∷ value ∷ [])
            (run (text "defaults") (text "write" ∷ (power_state ++ (text "-int" ∷ value ∷ []))) h),
        ok tt,
      )

  wifi_device : H → Text
  wifi_device h = mac_wifi_device (ask (text "networksetup") (text "-listallhardwareports" ∷ []) h)

  unfoldable pub wifi_enabled : H → Result Bool
  unfolding wifi_device
  wifi_enabled h = ok (
      contains
        (to_lowercase (ask (text "networksetup") (text "-getairportpower" ∷ wifi_device h ∷ []) h))
        (text "on"))

  unfoldable pub set_wifi_enabled : Bool → H → H × Done
  unfolding wifi_device
  set_wifi_enabled enabled h = (
    run (text "networksetup")
        (text "-setairportpower" ∷ wifi_device h ∷ switch enabled (text "on") (text "off") ∷ []) h,
    ok tt,
  )

  unfoldable pub process_purge : H → H × Done
  process_purge h = (run (text "purge") [] h, ok tt)

  unfoldable pub load_average : {F : Type 0} → Float F → H → F
  load_average float h =
      let out = ask (text "sysctl") (text "-n" ∷ text "vm.loadavg" ∷ []) h in
      let cleaned = trim (trim_matches (λ c. (c == b'{') || (c == b'}')) (trim out)) in
      or_zero float (float.parse (first_word (split_whitespace cleaned)))

  pmset : Text → Text → H → H
  pmset setting value h = run (text "pmset") (text "-a" ∷ setting ∷ value ∷ []) h

  unfoldable pub apply_mode_performance : H → H
  unfolding pmset
  apply_mode_performance h =
      pmset (text "displaysleep") (text "10")
        (pmset (text "tcpkeepalive") (text "1") (pmset (text "lowpowermode") (text "0") h))

  unfoldable pub apply_mode_extreme : H → H
  unfolding pmset
  apply_mode_extreme h =
      pmset (text "displaysleep") (text "3")
        (pmset (text "tcpkeepalive") (text "0") (pmset (text "lowpowermode") (text "1") h))

  unfoldable pub apply_mode_restore : H → H
  unfolding pmset
  apply_mode_restore h =
      pmset (text "displaysleep") (text "10")
        (pmset (text "tcpkeepalive") (text "1") (pmset (text "lowpowermode") (text "0") h))

  unfoldable pub apply_profile : PowerProfile → H → H × Done
  unfolding apply_mode_performance apply_mode_extreme apply_mode_restore
  apply_profile performance h = (apply_mode_performance h, ok tt)
  apply_profile extreme h = (apply_mode_extreme h, ok tt)
  apply_profile normal h = (apply_mode_restore h, ok tt)
  apply_profile auto_extreme h = (apply_mode_restore h, ok tt)

  -- A processor without a range of frequencies to discover, whose settings do nothing.
  unfoldable pub num_cpus : ℕ
  num_cpus = parallelism

  unfoldable pub online_cores : Result ℕ
  unfolding num_cpus
  online_cores = ok num_cpus

abbrev pub freq_bounds : Result (ℕ × ℕ)
freq_bounds = err unsupported

abbrev pub freq_limit : Result ℕ
freq_limit = err unsupported

module _ {H : Type 0} (sh : Shell H) where
  unfoldable pub capabilities : H → HardwareCapabilities
  unfolding is_stationary
  capabilities h = record {
    has_battery = not (is_stationary sh h);
    is_stationary_mains = is_stationary sh h;
    has_cpu_frequency_control = is_ok freq_bounds;
    has_cpu_core_control = false;
    has_rapl = false;
    has_gpu_control = false;
    has_backlight_control = true;
    has_charge_threshold = false;
    has_peripherals_control = true;
    has_system_tweaks = true;
    has_compositor_focus = false;
  }
