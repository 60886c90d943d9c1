-- ===== src/Core/Config.antt =====
-- crates/wattwarden-core/src/config.rs: profiles, levels and the configuration record. The floating
-- point fields of `LevelParams` are in hundredths. Reading and writing the JSON file is serde's.
pub mod RoundTrip
pub mod Levels
use wattwarden.Base.{
  ℕ, zero, suc, ◌+◌, ◌/◌, Text, text, text_eq, Bool, true, false, ◌||◌, Option, none, some, List,
  [], ◌∷◌, any, max, if◌then◌else◌, trim, to_lowercase,
}
use wattwarden.Core.Error.{Result, ok, err, config}

pub data PowerProfile : Type 0 where
  normal performance extreme auto_extreme : PowerProfile

-- `Display`
unfoldable pub display_profile : PowerProfile → Text
display_profile normal = text "Normal"
display_profile performance = text "Performance"
display_profile extreme = text "Extreme"
display_profile auto_extreme = text "Auto Extreme"

abbrev one_of : List Text → Text → Bool
one_of words s = any (λ w. text_eq w s) words

profile_of : Text → Result PowerProfile
profile_of s =
    if one_of (text "normal" ∷ text "restore" ∷ text "default" ∷ text "restore/default" ∷ []) s
    then ok normal
    else if one_of (text "performance" ∷ text "perf" ∷ []) s
    then ok performance
    else if text_eq (text "extreme") s
    then ok extreme
    else if one_of (text "auto" ∷ text "autoextreme" ∷ text "auto-extreme" ∷ []) s
    then ok auto_extreme
    else err config

-- `FromStr`
unfoldable pub profile_from_str : Text → Result PowerProfile
unfolding profile_of
profile_from_str s = profile_of (trim (to_lowercase s))

pub data AutoExtremeLevel : Type 0 where
  low medium high : AutoExtremeLevel

unfoldable pub display_level : AutoExtremeLevel → Text
display_level low = text "low"
display_level medium = text "medium"
display_level high = text "high"

level_of : Text → Result AutoExtremeLevel
level_of s =
    if text_eq (text "low") s
    then ok low
    else if one_of (text "medium" ∷ text "med" ∷ []) s
    then ok medium
    else if text_eq (text "high") s
    then ok high
    else err config

unfoldable pub level_from_str : Text → Result AutoExtremeLevel
unfolding level_of
level_from_str s = level_of (trim (to_lowercase s))

pub record LevelParams : Type 0 where
  pub idle_threshold : ℕ
  pub idle_cores : ℕ
  pub epp_idle : Text
  pub epp_load : Text
  pub turbo_from : ℕ
  pub manage_power_hints : Bool
  pub brightness_delta : ℕ

-- `ncpu` is the available parallelism.
unfoldable pub params : ℕ → AutoExtremeLevel → LevelParams
params ncpu high = record {
  idle_threshold = 30;
  idle_cores = 2;
  epp_idle = text "power";
  epp_load = text "power";
  turbo_from = 80;
  manage_power_hints = false;
  brightness_delta = 0;
}
params ncpu medium = record {
  idle_threshold = 50;
  idle_cores = max (ncpu / 2) 2;
  epp_idle = text "power";
  epp_load = text "power";
  turbo_from = 67;
  manage_power_hints = true;
  brightness_delta = 10;
}
params ncpu low = record {
  idle_threshold = 70;
  idle_cores = 0;
  epp_idle = text "balance_power";
  epp_load = text "balance_performance";
  turbo_from = 33;
  manage_power_hints = true;
  brightness_delta = 20;
}

unfoldable pub next : AutoExtremeLevel → AutoExtremeLevel
next low = medium
next medium = high
next high = low

pub record Config : Type 0 where
  pub auto_extreme_enabled : Bool
  pub auto_extreme_level : AutoExtremeLevel
  pub auto_brightness : Bool
  pub profile : Option PowerProfile
  pub battery_charge_limit : Option ℕ
  pub battery_health_log : Bool
  pub battery_temp_warn_c : Option ℕ
  pub terminal_brightness : ℕ
  pub gui_brightness : ℕ

abbrev pub default_terminal_brightness : ℕ
default_terminal_brightness = 25

abbrev pub default_gui_brightness : ℕ
default_gui_brightness = 65

-- `Config::default`
abbrev pub default_config : Config
default_config = record {
  auto_extreme_enabled = false;
  auto_extreme_level = high;
  auto_brightness = false;
  profile = none;
  battery_charge_limit = none;
  battery_health_log = false;
  battery_temp_warn_c = none;
  terminal_brightness = default_terminal_brightness;
  gui_brightness = default_gui_brightness;
}
