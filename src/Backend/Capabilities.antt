-- ===== src/Backend/Capabilities.antt =====
-- crates/wattwarden-platform/src/linux/mod.rs: what the hardware has. The class of the active window
-- is the compositor's, an input here.
use wattwarden.Base.{Text, true, Option, ltb, is_some}
use wattwarden.Core.Traits.{HardwareCapabilities}
use wattwarden.Sysfs.{World}
use wattwarden.Cpu.Governor.{num_cpus}
use wattwarden.Battery.{has_battery, is_stationary}
use wattwarden.Threshold.Set.{supports_threshold}
use wattwarden.Backend.{LinuxBackend}

-- The range of frequencies is always told, by a fallback if need be.
unfoldable pub capabilities : LinuxBackend → Option Text → World → HardwareCapabilities
capabilities b window w = record {
  has_battery = has_battery b.battery;
  is_stationary_mains = is_stationary b.battery;
  has_cpu_frequency_control = true;
  has_cpu_core_control = ltb 1 (num_cpus b.cpu w);
  has_rapl = is_some b.rapl;
  has_gpu_control = is_some b.gpu;
  has_backlight_control = is_some b.backlight;
  has_charge_threshold = supports_threshold b.threshold w;
  has_peripherals_control = true;
  has_system_tweaks = true;
  has_compositor_focus = is_some window;
}
