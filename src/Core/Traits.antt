-- ===== src/Core/Traits.antt =====
-- crates/wattwarden-core/src/traits.rs: the interfaces that a client takes as `&dyn` references. `S`
-- is the state of the hardware behind one; a method that writes returns the new state.
use wattwarden.Base.{ℕ, Bool}
use wattwarden.Core.Error.{Result, Done}

pub record ChargeThreshold (S : Type 0) : Type 0 where
  pub supports_threshold : S → Bool
  pub charge_threshold : S → Result ℕ
  pub set_charge_threshold : ℕ → S → S × Done

-- What the calibration and the daemon read of a battery.
pub record PowerSource (S : Type 0) : Type 0 where
  pub battery_percentage : S → Result ℕ
  pub is_charging : S → Result Bool

-- What the hardware has, as it is found at run time.
pub record HardwareCapabilities : Type 0 where
  pub has_battery : Bool
  pub is_stationary_mains : Bool
  pub has_cpu_frequency_control : Bool
  pub has_cpu_core_control : Bool
  pub has_rapl : Bool
  pub has_gpu_control : Bool
  pub has_backlight_control : Bool
  pub has_charge_threshold : Bool
  pub has_peripherals_control : Bool
  pub has_system_tweaks : Bool
  pub has_compositor_focus : Bool
