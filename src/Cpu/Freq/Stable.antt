-- ===== src/Cpu/Freq/Stable.antt =====
-- The range does not move when a limit is written: no ratchet.
use wattwarden.Base.{ℕ, ◌≡◌, refl, ◌∙◌, ap, none, List, [], ◌∷◌, each, Option-cases, inl, inr}
use wattwarden.Sysfs.{World, Os, Effect, Node, cpu, cpuinfo_min_freq, cpuinfo_max_freq}
use wattwarden.Sysfs.Issues.{Issues, Issues-mono}
use wattwarden.Sysfs.Stable.{Same, Keeps, Same-of_Issues, read_i64-Same}
use wattwarden.Cpu.Governor.{LinuxCpuGovernor, cpu_ids}
use wattwarden.Cpu.Freq.{discovered_freq_bounds, mhz_range, Khz, scan_cpu, set_freq_limit}
use wattwarden.Cpu.Freq.Clamped.{IsFreqWrite, set_freq_limit-IsFreqWrite, set_freq_limit-none}

-- The nodes that the range is read from.
pub data IsCpuinfo : Node → Type 0 where
  min_freq : (id : ℕ) → IsCpuinfo (cpu id cpuinfo_min_freq)
  max_freq : (id : ℕ) → IsCpuinfo (cpu id cpuinfo_max_freq)

-- A frequency write, in whatever range.
pub data IsScaling : Effect → Type 0 where
  scaling : (lo hi : ℕ) (e : Effect) → IsFreqWrite lo hi e → IsScaling e

module _ {w w' : World} (s : Same IsCpuinfo w w') where
  scan_cpu_same : (id : ℕ) (khz : Khz) → scan_cpu w' id khz ≡ scan_cpu w id khz
  unfolding scan_cpu
  scan_cpu_same id khz = rw (
    read_i64-Same s (cpu id cpuinfo_min_freq) (min_freq id),
    read_i64-Same s (cpu id cpuinfo_max_freq) (max_freq id),
  )

  each-scan_cpu :
      (ids : List ℕ) (khz : Khz) → each (scan_cpu w') ids khz ≡ each (scan_cpu w) ids khz
  each-scan_cpu [] khz = refl
  each-scan_cpu (id ∷ ids) khz =
      ap (each (scan_cpu w') ids) (scan_cpu_same id khz) ∙ each-scan_cpu ids (scan_cpu w id khz)

  cpu_ids_same : (g : LinuxCpuGovernor) → cpu_ids g w' ≡ cpu_ids g w
  unfolding cpu_ids
  cpu_ids_same g = rw s.same_cpus

  pub discovered_freq_bounds_same :
      (g : LinuxCpuGovernor) → discovered_freq_bounds g w' ≡ discovered_freq_bounds g w
  unfolding discovered_freq_bounds
  discovered_freq_bounds_same g = ap mhz_range (
      ap (λ ids. each (scan_cpu w') ids (none, none)) (cpu_ids_same g)
      ∙ each-scan_cpu (cpu_ids g w) (none, none))

set_freq_limit-IsScaling :
    (os : Os) (g : LinuxCpuGovernor) (mhz : ℕ) (w : World)
    → Issues os IsScaling w (set_freq_limit os g mhz w)
set_freq_limit-IsScaling os g mhz w = elim (Option-cases (discovered_freq_bounds g w)) [
  | inl e ↦ rw (set_freq_limit-none os g mhz w e) Issues.stop
  | inr ((lo, hi), e) ↦
      Issues-mono (IsFreqWrite lo hi) IsScaling (λ x h. scaling lo hi x h)
        (set_freq_limit-IsFreqWrite os g mhz w e)
]

-- Where a frequency write leaves `cpuinfo_min_freq` and `cpuinfo_max_freq` alone, as the kernel
-- documents, the discovered range is the same before and after a frequency limit is written:
-- repeated writes cannot inflate it.
pub discovered_freq_bounds-set_freq_limit :
    (os : Os)
    → Keeps os IsScaling IsCpuinfo
    → (g : LinuxCpuGovernor) (mhz : ℕ) (w : World)
    → discovered_freq_bounds g (set_freq_limit os g mhz w) ≡ discovered_freq_bounds g w
discovered_freq_bounds-set_freq_limit os keeps g mhz w =
    discovered_freq_bounds_same (Same-of_Issues keeps (set_freq_limit-IsScaling os g mhz w)) g
