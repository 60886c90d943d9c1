-- ===== src/Cpu/Freq/Clamped.antt =====
-- Every frequency that is written lies in the range that the hardware declares.
use wattwarden.Base.{
  ℕ, ◌*◌, ◌≤◌, ◌<◌, ◌^◌, ◌≡◌, ◌⊎◌, inl, inr, refl, sym, subst, List, [], ◌∷◌, none, some, arith,
  clamp, clamp_bounds, to_string, each,
}
use wattwarden.Sysfs.{
  World, Os, Effect, write, cpu, scaling_min_freq, scaling_max_freq, exists, cpufreq,
}
use wattwarden.Sysfs.Issues.{Issues, stop, Issues-trans, Issues-write, Issues-if, Issues-mono}
use wattwarden.Cpu.Governor.{LinuxCpuGovernor, cpu_ids}
use wattwarden.Cpu.Freq.{discovered_freq_bounds, mhz_range, Khz, write_limits, set_freq_limit}

-- A write of a frequency limit inside `lo..hi` MHz, and its floor, in kHz.
pub data IsFreqWrite (lo hi : ℕ) : Effect → Type 0 where
  floor : (id : ℕ) → IsFreqWrite lo hi (write (cpu id scaling_min_freq) (to_string (lo * 1000)))
  limit :
      (id mhz : ℕ)
      → lo ≤ mhz
      → mhz ≤ hi
      → IsFreqWrite lo hi (write (cpu id scaling_max_freq) (to_string (mhz * 1000)))

-- A write to one of the CPUs of the floor `lo`, or of the limit, in kHz.
abbrev pub IsFreqWriteOf : ℕ → ℕ → List ℕ → Effect → Type 0
IsFreqWriteOf lo mhz [] e = ⊥
IsFreqWriteOf lo mhz (id ∷ ids) e =
    (e ≡ write (cpu id scaling_min_freq) (to_string (lo * 1000)))
    ⊎ (e ≡ write (cpu id scaling_max_freq) (to_string (mhz * 1000)))
    ⊎ IsFreqWriteOf lo mhz ids e

within_range :
    (lo hi mhz : ℕ) (ids : List ℕ) (e : Effect)
    → lo ≤ mhz
    → mhz ≤ hi
    → IsFreqWriteOf lo mhz ids e
    → IsFreqWrite lo hi e
within_range lo hi mhz [] e h k never = absurd never
within_range lo hi mhz (id ∷ ids) e h k (inl same) = subst (IsFreqWrite lo hi) (sym same) (floor id)
within_range lo hi mhz (id ∷ ids) e h k (inr (inl same)) =
    subst (IsFreqWrite lo hi) (sym same) (limit id mhz h k)
within_range lo hi mhz (id ∷ ids) e h k (inr (inr later)) = within_range lo hi mhz ids e h k later

mhz_range-lt : (khz : Khz) {lo hi : ℕ} → mhz_range khz ≡ some (lo, hi) → (lo < hi) × (hi < 2 ^ 32)
unfolding mhz_range
mhz_range-lt (some a, some b) e = ground arith
mhz_range-lt (some a, none) e = ground arith
mhz_range-lt (none, b) e = ground arith

-- A discovered range is not degenerate, and fits its type.
pub discovered_freq_bounds-lt :
    (g : LinuxCpuGovernor) (w : World) {lo hi : ℕ}
    → discovered_freq_bounds g w ≡ some (lo, hi)
    → (lo < hi) × (hi < 2 ^ 32)
unfolding discovered_freq_bounds
discovered_freq_bounds-lt g w e = mhz_range-lt (each _ (cpu_ids g w) (none, none)) e

write_limits-Issues :
    (os : Os) (lo mhz id : ℕ) (ids : List ℕ) (w : World)
    → Issues os (IsFreqWriteOf lo mhz (id ∷ ids)) w (write_limits os (lo * 1000) (mhz * 1000) id w)
unfolding write_limits
write_limits-Issues os lo mhz id ids w =
    Issues-if (exists w (cpu id cpufreq))
      (Issues-trans (Issues-write (cpu id scaling_min_freq) _ (inl refl))
        (Issues-write (cpu id scaling_max_freq) _ (inr (inl refl))))
      stop

all_limits-Issues :
    (os : Os) (lo mhz : ℕ) (ids : List ℕ) (w : World)
    → Issues os (IsFreqWriteOf lo mhz ids) w (each (write_limits os (lo * 1000) (mhz * 1000)) ids w)
all_limits-Issues os lo mhz [] w = stop
all_limits-Issues os lo mhz (id ∷ ids) w = Issues-trans (write_limits-Issues os lo mhz id ids w) (
    Issues-mono (IsFreqWriteOf lo mhz ids) (IsFreqWriteOf lo mhz (id ∷ ids)) (λ e h. inr (inr h))
      (all_limits-Issues os lo mhz ids _))

-- On a machine with a discovered range `lo..hi`, `set_freq_limit` issues nothing but writes to the
-- machine's CPUs of the floor `lo` and of one limit, which is the frequency that is asked for brought
-- into the range, however the kernel answers.
pub set_freq_limit-Issues :
    (os : Os) (g : LinuxCpuGovernor) (mhz : ℕ) (w : World) {lo hi : ℕ}
    → discovered_freq_bounds g w ≡ some (lo, hi)
    → (lo ≤ clamp mhz lo hi)
      × (clamp mhz lo hi ≤ hi)
      × Issues os (IsFreqWriteOf lo (clamp mhz lo hi) (cpu_ids g w)) w (set_freq_limit os g mhz w)
unfolding set_freq_limit
set_freq_limit-Issues os g mhz w {lo} {hi} e =
    let range = discovered_freq_bounds-lt g w e in
    let inside = clamp_bounds mhz lo hi (omega arith) in
    (inside.0, inside.1, rw e (all_limits-Issues os lo (clamp mhz lo hi) (cpu_ids g w) w))

-- Each of its writes is in the range.
pub set_freq_limit-IsFreqWrite :
    (os : Os) (g : LinuxCpuGovernor) (mhz : ℕ) (w : World) {lo hi : ℕ}
    → discovered_freq_bounds g w ≡ some (lo, hi)
    → Issues os (IsFreqWrite lo hi) w (set_freq_limit os g mhz w)
set_freq_limit-IsFreqWrite os g mhz w {lo} {hi} e =
    let (h, k, issued) = set_freq_limit-Issues os g mhz w e in
    Issues-mono (IsFreqWriteOf lo (clamp mhz lo hi) (cpu_ids g w)) (IsFreqWrite lo hi)
      (λ x m. within_range lo hi (clamp mhz lo hi) (cpu_ids g w) x h k m) issued

-- With no discovered range nothing is written.
pub set_freq_limit-none :
    (os : Os) (g : LinuxCpuGovernor) (mhz : ℕ) (w : World)
    → discovered_freq_bounds g w ≡ none
    → set_freq_limit os g mhz w ≡ w
unfolding set_freq_limit
set_freq_limit-none os g mhz w e = rw e
