-- ===== src/Tests/Hardware.antt =====
-- The components on the laptop.
use wattwarden.Base.{
  false, ℕ, ◌≤◌, ◌<◌, ◌^◌, ◌≡◌, ◌↔◌, refl, text, none, some, [], ◌∷◌, ◌++◌, to_string, clamp, arith,
  pos_part, trim, parse_i64, parse_unsigned, split_whitespace, subst,
}
use wattwarden.Sysfs.{
  run, World, read, read_i64, read_u64, exists, charge_control_end_threshold, supply, supply_node,
}
use wattwarden.Sysfs.Issues.{Issues}
use wattwarden.Backend
use wattwarden.Core.Error.{ok}
use wattwarden.Cpu.Governor
use wattwarden.Cpu.Governor.{cpu_ids, num_cpus}
use wattwarden.Cpu.Freq.{discovered_freq_bounds, set_freq_limit}
use wattwarden.Cpu.Freq.Clamped.{IsFreqWriteOf, set_freq_limit-Issues}
use wattwarden.Cpu.Freq.Stable.{IsScaling, IsCpuinfo, discovered_freq_bounds-set_freq_limit}
use wattwarden.Cpu.Cores.{set_online_cores}
use wattwarden.Cpu.Cores.Plan.{on, off, IsLimitWrite, set_online_cores-switches}
use wattwarden.Cpu.Preference.{
  available_epp, resolve_epp, rank, available_governors, resolve_governor,
}
use wattwarden.Rapl.{
  LinuxRapl, bounds_of, bounds_in, constraint_bounds_watts_in, constraint_index_in, long_term,
  write_constraint,
}
use wattwarden.Rapl
use wattwarden.Rapl.Writes.{
  IsPowerWrite, IsPowerLimit, IsConstraint, write_constraint-Issues, write_constraint-none,
}
use wattwarden.Gpu.{LinuxGpu, discovered_gpu_bounds, card_read}
use wattwarden.Backlight.{devices, max_of, set_brightness_percent}
use wattwarden.Backlight.Scaled.{
  HasIntMaxima, brightness_writes, IsBrightnessWrite, IsMaxBrightness,
  set_brightness_percent-Issues,
}
use wattwarden.Aspm.{available_policies, set_aspm_policy}
use wattwarden.Aspm.Advertised.{IsPolicyWrite, set_aspm_policy-Issues}
use wattwarden.Threshold.Nodes.{ThresholdNode, nodes}
use wattwarden.Threshold.Set.{
  read_sysfs_u64, write_sysfs_u64, write_node, charge_threshold, set_charge_threshold, new_start,
}
use wattwarden.Threshold.Set.Within.{IsThresholdWrite, set_charge_threshold-Issues}
use wattwarden.Threshold.Set.Sticks.{TookValue, set_charge_threshold-TookValue}
use wattwarden.Threshold.Set.Reported.{charge_threshold-set_charge_threshold}
use wattwarden.Tests.Laptop.{laptop, backend, deaf, deaf_keeps}

laptop_cpus : backend.cpu.discovered ≡ 0 ∷ 1 ∷ 2 ∷ 3 ∷ []
unfolding Backend.with_root Governor.with_root
laptop_cpus = refl

laptop_freq : discovered_freq_bounds backend.cpu laptop ≡ some (400, 4000)
unfolding Backend.with_root Governor.with_root discovered_freq_bounds cpu_ids read_i64 parse_i64
    read trim
laptop_freq = refl

abbrev pub rapl : LinuxRapl
rapl = record { domains = text "intel-rapl" ∷ text "intel-rapl:0" ∷ [] }

pub laptop_rapl : backend.rapl ≡ some rapl
unfolding Backend.with_root Rapl.with_root Rapl.discover_domains exists
laptop_rapl = refl

pub laptop_bounds : bounds_of rapl laptop long_term ≡ some (5, 15)
unfolding bounds_of bounds_in constraint_bounds_watts_in constraint_index_in read_u64 read trim
    parse_unsigned
laptop_bounds = refl

abbrev gpu : LinuxGpu
gpu = record { card = some (record { name = text "card0"; device = false }) }

laptop_gpu : discovered_gpu_bounds gpu laptop ≡ some (300, 1150)
unfolding discovered_gpu_bounds card_read read_u64 read trim parse_unsigned
laptop_gpu = refl

laptop_epp :
    available_epp laptop
    ≡ text "default" ∷ text "performance" ∷ text "balance_performance" ∷ text "power" ∷ []
unfolding available_epp read trim split_whitespace
laptop_epp = refl

laptop_resolved : resolve_epp laptop (text "balance_power") ≡ some (text "default")
unfolding resolve_epp available_epp read trim split_whitespace rank
laptop_resolved = refl

laptop_governors : available_governors laptop ≡ text "performance" ∷ text "powersave" ∷ []
unfolding available_governors read trim split_whitespace
laptop_governors = refl

laptop_governor : resolve_governor laptop (text "schedutil") ≡ some (text "powersave")
unfolding resolve_governor available_governors read trim split_whitespace
laptop_governor = refl

laptop_maxima : HasIntMaxima laptop
unfolding max_of read_i64 read trim parse_i64
laptop_maxima device m e = subst (λ z. pos_part z < 2 ^ 31) e (omega arith)

abbrev pub node : ThresholdNode
node = record {
  end = supply_node (supply (text "BAT0")) charge_control_end_threshold;
  start = none;
  types = none;
}

pub laptop-nodes : nodes backend.threshold laptop ≡ node ∷ []
unfolding Backend.with_root nodes exists
laptop-nodes = refl

pub laptop_set :
    set_charge_threshold deaf backend.threshold 80 laptop
    ≡ ((set_charge_threshold deaf backend.threshold 80 laptop).0, ok tt)
unfolding Backend.with_root nodes exists set_charge_threshold write_node read_sysfs_u64
    write_sysfs_u64 trim parse_unsigned
laptop_set = refl

pub laptop_kept :
    nodes backend.threshold (set_charge_threshold deaf backend.threshold 80 laptop).0 ≡ node ∷ []
unfolding Backend.with_root nodes exists set_charge_threshold write_node write_sysfs_u64
laptop_kept = refl

set_freq_limit-Issues_example :
    (400 ≤ clamp 9000 400 4000)
    × (clamp 9000 400 4000 ≤ 4000)
    × Issues deaf
        (IsFreqWriteOf 400 (clamp 9000 400 4000) (cpu_ids backend.cpu laptop))
        laptop
        (set_freq_limit deaf backend.cpu 9000 laptop)
set_freq_limit-Issues_example = set_freq_limit-Issues deaf backend.cpu 9000 laptop laptop_freq

discovered_freq_bounds-set_freq_limit_example :
    discovered_freq_bounds backend.cpu (set_freq_limit deaf backend.cpu 9000 laptop)
    ≡ discovered_freq_bounds backend.cpu laptop
discovered_freq_bounds-set_freq_limit_example =
    discovered_freq_bounds-set_freq_limit deaf (deaf_keeps IsScaling IsCpuinfo) backend.cpu 9000
      laptop

set_online_cores-switches_example :
    (mid : World) × (mid.log ≡ on 1 ∷ off 2 ∷ off 3 ∷ [])
    × Issues deaf (IsLimitWrite backend.cpu mid) mid (set_online_cores deaf backend.cpu 2 laptop)
set_online_cores-switches_example =
    set_online_cores-switches deaf backend.cpu 2 0 (1 ∷ 2 ∷ 3 ∷ []) laptop laptop_cpus

write_constraint-Issues_example :
    Issues deaf
      (IsPowerWrite laptop long_term)
      laptop
      (write_constraint deaf rapl long_term 40 laptop).0
write_constraint-Issues_example =
    write_constraint-Issues deaf (deaf_keeps IsPowerLimit IsConstraint) rapl long_term 40 laptop

write_constraint-none_example :
    (write_constraint deaf rapl (text "peak_power") 40 laptop).0 ≡ laptop
unfolding write_constraint constraint_index_in read trim
write_constraint-none_example = write_constraint-none deaf rapl (text "peak_power") 40 laptop refl

set_brightness_percent-Issues_example :
    (1 ≤ clamp 0 1 100)
    × (clamp 0 1 100 ≤ 100)
    × Issues deaf
        (IsBrightnessWrite laptop (clamp 0 1 100))
        laptop
        (set_brightness_percent deaf 0 laptop)
    × ((set_brightness_percent deaf 0 laptop).log
        ≡ laptop.log
          ++ brightness_writes laptop (clamp 0 1 100) (devices laptop)
          ++ (run (text "brightnessctl" ∷ text "set" ∷ (to_string (clamp 0 1 100) ++ text "%") ∷ [])
              ∷ []))
set_brightness_percent-Issues_example =
    set_brightness_percent-Issues deaf 0 laptop laptop_maxima
      (deaf_keeps (IsBrightnessWrite laptop (clamp 0 1 100)) IsMaxBrightness)

set_aspm_policy-Issues_example :
    Issues deaf
      (IsPolicyWrite (available_policies laptop) (text "powersave"))
      laptop
      (set_aspm_policy deaf (text "powersave") laptop)
set_aspm_policy-Issues_example = set_aspm_policy-Issues deaf (text "powersave") laptop

set_charge_threshold-Issues_example :
    (value : ℕ) × (20 ≤ value)
    × (value ≤ 100)
    × (new_start value < value)
    × Issues deaf
        (IsThresholdWrite (nodes backend.threshold laptop) value)
        laptop
        (set_charge_threshold deaf backend.threshold 80 laptop).0
set_charge_threshold-Issues_example = set_charge_threshold-Issues deaf backend.threshold 80 laptop

set_charge_threshold-TookValue_example :
    ((set_charge_threshold deaf backend.threshold 80 laptop).1 ≡ ok tt)
    ↔ TookValue deaf (clamp 80 20 100) (nodes backend.threshold laptop) laptop
set_charge_threshold-TookValue_example =
    set_charge_threshold-TookValue deaf backend.threshold 80 laptop

charge_threshold-set_charge_threshold_example :
    charge_threshold backend.threshold (set_charge_threshold deaf backend.threshold 80 laptop).0
    ≡ ok 80
charge_threshold-set_charge_threshold_example =
    charge_threshold-set_charge_threshold deaf backend.threshold node 80 laptop
      (set_charge_threshold deaf backend.threshold 80 laptop).0 (omega arith) (omega arith)
      laptop-nodes laptop_kept laptop_set
