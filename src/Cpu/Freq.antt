-- ===== src/Cpu/Freq.antt =====
-- The frequency operations of linux/cpu.rs: `discovered_freq_bounds`, `freq_bounds`, `freq_limit`
-- and `set_freq_limit`. Those that return a `Result` never return an error, so the model leaves
-- the `Ok` out.
pub mod Clamped
pub mod Stable
use wattwarden.Base.{
  ℕ, ◌*◌, ◌/◌, Bool, ◌||◌, not, Option, none, some, List, [], ◌∷◌, ℤ, pos, pos_part, ltb_ℤ, leb_ℤ,
  min_ℤ, max_ℤ, wrap_u32, leb, clamp, if◌then◌else◌, each, to_string,
}
use wattwarden.Sysfs.{
  World, Os, Node, cpu, cpufreq, cpuinfo_min_freq, cpuinfo_max_freq, scaling_min_freq,
  scaling_max_freq, read_i64, exists, write_best_effort,
}
use wattwarden.Cpu.Governor.{LinuxCpuGovernor, cpu_ids}

abbrev pub fallback_freq_min_mhz : ℕ
fallback_freq_min_mhz = 400

abbrev pub fallback_freq_max_mhz : ℕ
fallback_freq_max_mhz = 1600

-- `min_khz` and `max_khz` of the loop.
abbrev pub Khz : Type 0
Khz = Option ℤ × Option ℤ

abbrev merge : (ℤ → ℤ → ℤ) → Option ℤ → ℤ → Option ℤ
merge pick none v = some v
merge pick (some m) v = some (pick m v)

-- One round of the loop: a CPU with no range, or with an unusable one, is passed over.
scan_range : Option ℤ → Option ℤ → Khz → Khz
scan_range (some lo) (some hi) (min_khz, max_khz) =
    if leb_ℤ lo (pos 0) || leb_ℤ hi (pos 0) || ltb_ℤ hi lo
    then (min_khz, max_khz)
    else (merge min_ℤ min_khz lo, merge max_ℤ max_khz hi)
scan_range (some lo) none khz = khz
scan_range none hi khz = khz

scan_cpu : World → ℕ → Khz → Khz
unfolding scan_range
scan_cpu w id khz =
    scan_range (read_i64 w (cpu id cpuinfo_min_freq)) (read_i64 w (cpu id cpuinfo_max_freq)) khz

-- Both ends are positive, so the casts see no sign; a value Above 32 bits wraps.
mhz_range : Khz → Option (ℕ × ℕ)
mhz_range (some lo, some hi) =
    let min_mhz = wrap_u32 (pos_part lo / 1000) in
    let max_mhz = wrap_u32 (pos_part hi / 1000) in
    if leb max_mhz min_mhz then none else some (min_mhz, max_mhz)
mhz_range (some lo, none) = none
mhz_range (none, hi) = none

unfoldable pub discovered_freq_bounds : LinuxCpuGovernor → World → Option (ℕ × ℕ)
unfolding scan_cpu mhz_range
discovered_freq_bounds g w = mhz_range (each (scan_cpu w) (cpu_ids g w) (none, none))

abbrev or_fallback : Option (ℕ × ℕ) → ℕ × ℕ
or_fallback none = (fallback_freq_min_mhz, fallback_freq_max_mhz)
or_fallback (some range) = range

unfoldable pub freq_bounds : LinuxCpuGovernor → World → ℕ × ℕ
freq_bounds g w = or_fallback (discovered_freq_bounds g w)

abbrev mhz_of : Option ℤ → ℕ
mhz_of none = 0
mhz_of (some khz) = wrap_u32 (pos_part khz / 1000)

-- A negative value reads as 0, as a missing one does.
unfoldable pub freq_limit : World → ℕ
freq_limit w = mhz_of (read_i64 w (cpu 0 scaling_max_freq))

-- One round of the write loop: only an existing `cpufreq` directory is written.
unfoldable pub write_limits : Os → ℕ → ℕ → ℕ → World → World
write_limits os khz_min khz_max id w =
    if exists w (cpu id cpufreq)
    then write_best_effort os (cpu id scaling_max_freq) (to_string khz_max)
        (write_best_effort os (cpu id scaling_min_freq) (to_string khz_min) w)
    else w

limit_within : Os → LinuxCpuGovernor → ℕ → Option (ℕ × ℕ) → World → World
unfolding write_limits
limit_within os g mhz none w = w
limit_within os g mhz (some (min_mhz, max_mhz)) w =
    each (write_limits os (min_mhz * 1000) (clamp mhz min_mhz max_mhz * 1000)) (cpu_ids g w) w

unfoldable pub set_freq_limit : Os → LinuxCpuGovernor → ℕ → World → World
unfolding limit_within
set_freq_limit os g mhz w = limit_within os g mhz (discovered_freq_bounds g w) w
