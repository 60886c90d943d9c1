-- ===== src/Sysfs/Nodes.antt =====
-- The nodes that the backend names. A constructor stands for one format string of the source, and
-- its arguments for the holes of that string: `cpu id online` is sys/devices/system/cpu/cpu{id}/online.
use wattwarden.Base.{ℕ, Text, Bool}

-- Below sys/devices/system/cpu/cpu{id}; from `cpuinfo_min_freq` on, below its `cpufreq` directory.
pub data CpuLeaf : Type 0 where
  online cpufreq : CpuLeaf
  cpuinfo_min_freq cpuinfo_max_freq scaling_min_freq scaling_max_freq : CpuLeaf
  scaling_governor scaling_available_governors : CpuLeaf
  energy_performance_preference energy_performance_available_preferences : CpuLeaf

-- Below sys/class/powercap/{zone}; `i` is the number of a constraint.
pub data ZoneLeaf : Type 0 where
  constraint_name constraint_max_power_uw constraint_min_power_uw : ℕ → ZoneLeaf
  constraint_power_limit_uw : ℕ → ZoneLeaf
  min_power_range_uw max_power_range_uw : ZoneLeaf

-- Below sys/class/drm/{card}, or its `device` link.
pub data GpuLeaf : Type 0 where
  gt_max_freq_mhz gt_min_freq_mhz gt_rpn_freq_mhz gt_rp0_freq_mhz : GpuLeaf

-- Below sys/class/power_supply/{supply}, or the directory of a platform driver.
pub data SupplyLeaf : Type 0 where
  supply_type supply_online status capacity uevent : SupplyLeaf
  power_now current_now voltage_now energy_now charge_now : SupplyLeaf
  charge_full charge_full_design energy_full energy_full_design : SupplyLeaf
  cycle_count temp model_name manufacturer serial_number : SupplyLeaf
  charge_control_end_threshold charge_stop_threshold charge_control_limit_max : SupplyLeaf
  charge_thresholds charge_control_start_threshold charge_types : SupplyLeaf

-- The directory of a power supply, or sys/devices/platform/asus-nb-wmi and huawei-wmi.
pub data SupplyDir : Type 0 where
  supply : Text → SupplyDir
  asus_nb_wmi huawei_wmi : SupplyDir

pub data Bus : Type 0 where
  usb pci : Bus

pub data Node : Type 0 where
  cpu : ℕ → CpuLeaf → Node
  no_turbo boost : Node
  zone : Text → ZoneLeaf → Node
  drm : Text → Bool → GpuLeaf → Node
  max_brightness brightness : Text → Node
  supply_dir : SupplyDir → Node
  supply_node : SupplyDir → SupplyLeaf → Node
  led_max_brightness led_brightness : Text → Node
  power_control : Bus → Text → Node
  aspm_policy iwlwifi_power_save snd_hda_power_save snd_hda_power_save_controller : Node
  nmi_watchdog dirty_writeback drop_caches loadavg : Node

-- The directories that the backend lists.
pub data Dir : Type 0 where
  cpu_base powercap_base drm_base backlight_base power_supply_base leds_base : Dir
  usb_devices pci_devices : Dir
