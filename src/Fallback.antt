-- ===== src/Fallback.antt =====
-- crates/wattwarden-platform/src/fallback/mod.rs: the backend of an unknown system. Its only state is
-- the number of cores that it was told to keep online, which no hardware sees.
pub mod Within
use wattwarden.Base.{ℕ, min, Text, text, Bool, true, false, Option, none, List, [], clamp, ltb}
use wattwarden.Core.Error.{Result, ok, err, Done, unsupported}
use wattwarden.Core.Config.{PowerProfile, normal, performance, extreme, auto_extreme}
use wattwarden.Core.Float.{Float}
use wattwarden.Core.Traits.{ChargeThreshold, PowerSource, HardwareCapabilities}

pub record FallbackCpu : Type 0 where
  pub online : ℕ

unfoldable pub battery_percentage : FallbackCpu → Result ℕ
battery_percentage c = ok 100

unfoldable pub is_charging : FallbackCpu → Result Bool
is_charging c = ok true

unfoldable pub consumption_watts : {F : Type 0} → Float F → Result F
consumption_watts float = ok (float.of_nat 0)

unfoldable pub time_remaining : Result Text
time_remaining = ok (text "AC Mains (Stationary)")

unfoldable pub is_stationary : Bool
is_stationary = true

unfoldable pub fallback_battery : PowerSource FallbackCpu
unfolding battery_percentage is_charging
fallback_battery = record { battery_percentage = battery_percentage; is_charging = is_charging }

-- Every call of the threshold's interface is refused.
unfoldable pub fallback_threshold : ChargeThreshold FallbackCpu
fallback_threshold = record {
  supports_threshold = λ c. false;
  charge_threshold = λ c. err unsupported;
  set_charge_threshold = λ threshold c. (c, err unsupported);
}

unfoldable pub online_cores : FallbackCpu → Result ℕ
online_cores c = ok c.online

unfoldable pub freq_bounds : Result (ℕ × ℕ)
freq_bounds = ok (800, 4000)

unfoldable pub freq_limit : Result ℕ
freq_limit = ok 4000

unfoldable pub os_name : Text
os_name = text "Unknown"

unfoldable pub load_average : {F : Type 0} → Float F → F
load_average float = float.of_nat 0

-- `available_parallelism`, one if it is not known
module _ (parallelism : ℕ) where
  unfoldable pub new : FallbackCpu
  new = record { online = parallelism }

  unfoldable pub set_online_cores : ℕ → FallbackCpu → FallbackCpu × Done
  set_online_cores count c = (record { online = clamp count 1 parallelism }, ok tt)

  unfoldable pub capabilities : HardwareCapabilities
  capabilities = record {
    has_battery = false;
    is_stationary_mains = true;
    has_cpu_frequency_control = false;
    has_cpu_core_control = ltb 1 parallelism;
    has_rapl = false;
    has_gpu_control = false;
    has_backlight_control = false;
    has_charge_threshold = false;
    has_peripherals_control = false;
    has_system_tweaks = false;
    has_compositor_focus = false;
  }

  unfoldable pub apply_profile : PowerProfile → FallbackCpu → FallbackCpu × Done
  unfolding set_online_cores
  apply_profile performance c = ((set_online_cores parallelism c).0, ok tt)
  apply_profile extreme c = ((set_online_cores (min 2 parallelism) c).0, ok tt)
  apply_profile normal c = ((set_online_cores parallelism c).0, ok tt)
  apply_profile auto_extreme c = ((set_online_cores parallelism c).0, ok tt)
