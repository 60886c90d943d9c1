-- ===== src/Tests/Laptop.antt =====
-- A laptop with four CPUs, an Intel RAPL zone, a GPU, a backlight and one battery, and a kernel that
-- takes every write and changes nothing.
use wattwarden.Base.{
  ℕ, zero, suc, ◌+◌, ◌-◌, ◌*◌, ◌/◌, ◌^◌, min, max, Text, text, text_eq, Bool, true, Option, none,
  some, List, [], ◌∷◌, is_some, ltb, leb, if◌then◌else◌, parse_unsigned, to_string, ◌%◌, pos,
  pos_part, ◌++◌, refl,
}
use wattwarden.Sysfs.{
  World, Os, Effect, Node, Dir, accepted, cpu, cpufreq, online, cpuinfo_min_freq, cpuinfo_max_freq,
  scaling_min_freq, scaling_max_freq, scaling_governor, scaling_available_governors,
  energy_performance_preference, energy_performance_available_preferences, no_turbo, zone,
  constraint_name, constraint_max_power_uw, constraint_min_power_uw, constraint_power_limit_uw, drm,
  gt_max_freq_mhz, gt_min_freq_mhz, gt_rpn_freq_mhz, gt_rp0_freq_mhz, max_brightness, brightness,
  supply, supply_dir, supply_node, supply_type, supply_online, status, capacity,
  charge_control_end_threshold, aspm_policy, nmi_watchdog, dirty_writeback, loadavg, cpu_base,
  powercap_base, drm_base, backlight_base, power_supply_base,
}
use wattwarden.Sysfs.Stable.{Keeps}
use wattwarden.Core.Config.{Config, default_config}
use wattwarden.Backend.{LinuxBackend}
use wattwarden.Backend
use wattwarden.Core.Float.{Float}

abbrev supply_content : Text → Option Text
supply_content name =
    if text_eq name (text "BAT0") then some (text "Battery") else some (text "Mains")

-- Slot 0 is the long-term constraint and slot 1 the short-term one.
abbrev slot_name : ℕ → Option Text
slot_name zero = some (text "long_term")
slot_name (suc zero) = some (text "short_term")
slot_name (suc (suc i)) = none

abbrev pub content : Node → Option Text
content (cpu id online) = some (text "1")
content (cpu id cpuinfo_min_freq) = some (text "400000\n")
content (cpu id cpuinfo_max_freq) = some (text "4000000\n")
content (cpu id scaling_min_freq) = some (text "400000\n")
content (cpu id scaling_max_freq) = some (text "4000000\n")
content (cpu id scaling_governor) = some (text "powersave\n")
content (cpu id scaling_available_governors) = some (text "performance powersave\n")
content (cpu id energy_performance_preference) = some (text "performance\n")
content (cpu id energy_performance_available_preferences) =
    some (text "default performance balance_performance power\n")
content no_turbo = some (text "0\n")
content (zone name (constraint_name i)) = slot_name i
content (zone name (constraint_max_power_uw i)) = some (text "15000000\n")
content (zone name (constraint_min_power_uw i)) = some (text "5000000\n")
content (zone name (constraint_power_limit_uw i)) = some (text "15000000\n")
content (drm card device gt_rpn_freq_mhz) = some (text "300\n")
content (drm card device gt_rp0_freq_mhz) = some (text "1150\n")
content (drm card device gt_max_freq_mhz) = some (text "1150\n")
content (drm card device gt_min_freq_mhz) = some (text "300\n")
content (max_brightness device) = some (text "7500\n")
content (brightness device) = some (text "900\n")
content (supply_node (supply name) supply_type) = supply_content name
content (supply_node (supply name) supply_online) = some (text "1\n")
content (supply_node (supply name) status) =
    if text_eq name (text "BAT1") then some (text "Charging\n") else some (text "Discharging\n")
content (supply_node (supply name) capacity) = some (text "57\n")
content (supply_node (supply name) charge_control_end_threshold) =
    if text_eq name (text "BAT0") then some (text "80\n") else none
content aspm_policy = some (text "[default] performance powersave\n")
content nmi_watchdog = some (text "1\n")
content dirty_writeback = some (text "500\n")
content loadavg = some (text "2 1 1 1/100 4242\n")
content p = none

abbrev present : Node → Bool
present (cpu id cpufreq) = true
present (supply_dir (supply name)) = text_eq name (text "BAT0")
present p = is_some (content p)

abbrev names : Dir → List Text
names cpu_base = text "cpu0" ∷ text "cpu1" ∷ text "cpu2" ∷ text "cpu3" ∷ text "cpufreq" ∷ []
names powercap_base = text "intel-rapl" ∷ text "intel-rapl:0" ∷ []
names drm_base = text "card0" ∷ []
names backlight_base = text "intel_backlight" ∷ []
names power_supply_base = text "AC" ∷ text "BAT0" ∷ []
names d = []

abbrev pub laptop : World
laptop = record {
  tree = record {
    content = content;
    present = present;
    names = names;
    output = λ argv. [];
    more_cpus = 3;
  };
  log = [];
}

abbrev pub backend : LinuxBackend
backend = Backend.with_root laptop

abbrev pub deaf : Os
deaf w e = (w.tree, accepted)

pub deaf_keeps : (P : Effect → Type 0) (Q : Node → Type 0) → Keeps deaf P Q
deaf_keeps P Q = record { keeps = λ w e h. record { same = λ p q. refl; same_cpus = refl } }

-- Exact arithmetic in thousandths.
abbrev pub milli : Float ℕ
milli = record {
  of_nat = λ n. n * 1000;
  ratio = λ a b. a * 1000 / b;
  add = λ a b. a + b;
  sub = λ a b. a - b;
  mul = λ a b. a * b / 1000;
  div = λ a b. a * 1000 / b;
  least = min;
  greatest = max;
  round = λ a. (a + 500) / 1000 * 1000;
  ceil = λ a. (a + 999) / 1000 * 1000;
  lt = ltb;
  le = leb;
  as_u32 = λ a. min (a / 1000) (2 ^ 32 - 1);
  as_usize = λ a. a / 1000;
  parse = λ s. thousands (parse_unsigned (2 ^ 64) s);
  abs = λ a. a;
  of_int = λ n. pos_part n * 1000;
  as_i64 = λ a. pos (a / 1000);
  display = λ a. to_string (a / 1000);
  one_decimal = λ a. to_string (a / 1000) ++ (b'.' ∷ to_string (a % 1000 / 100));
  no_decimals = λ a. to_string ((a + 500) / 1000);
}
  where
    thousands : Option ℕ → Option ℕ
    thousands none = none
    thousands (some n) = some (n * 1000)

abbrev pub enabled : Config
enabled = record default_config { auto_extreme_enabled = true }
