-- ===== src/Cpu/Cores/Plan.antt =====
-- Which cores `set_online_cores` switches on and off.
use wattwarden.Base.{
  ℕ, zero, suc, ◌+◌, ◌-◌, ◌≤◌, ◌≡◌, refl, ap, ◌∙◌, sym, text, some, List, [], ◌∷◌, ◌++◌, map,
  append-nil, append_assoc, length, take, drop, ltb, clamp, clamp_bounds, lt→ltb, if◌then◌else◌,
  arith, inl, inr, Option-cases,
}
use wattwarden.Sysfs.{World, Os, Effect, write, cpu, online, write_best_effort}
use wattwarden.Sysfs.Issues.{Issues, stop, Issues-if, Issues-mono}
use wattwarden.Cpu.Governor.{LinuxCpuGovernor, num_cpus, cpu_ids}
use wattwarden.Cpu.Freq.{discovered_freq_bounds, freq_limit, set_freq_limit}
use wattwarden.Cpu.Freq.Clamped.{IsFreqWrite, set_freq_limit-IsFreqWrite, set_freq_limit-none}
use wattwarden.Cpu.Cores.{switch_cores, reapply_limit, set_online_cores}

abbrev pub on : ℕ → Effect
on id = write (cpu id online) (text "1")

abbrev pub off : ℕ → Effect
off id = write (cpu id online) (text "0")

-- The first `k` cores on, the others off.
abbrev pub switches : ℕ → List ℕ → List Effect
switches k ids = map on (take k ids) ++ map off (drop k ids)

abbrev plan : ℕ → ℕ → List ℕ → List Effect
plan n idx [] = []
plan n idx (id ∷ ids) =
    write (cpu id online) (if ltb idx n then text "1" else text "0") ∷ plan n (idx + 1) ids

switch_cores-log :
    (os : Os) (n idx : ℕ) (ids : List ℕ) (w : World)
    → (switch_cores os n idx ids w).log ≡ w.log ++ plan n idx ids
unfolding switch_cores write_best_effort
switch_cores-log os n idx [] w = sym (append-nil w.log)
switch_cores-log os n idx (id ∷ ids) w =
    switch_cores-log os n (idx + 1) ids _ ∙ append_assoc w.log _ _

plan-off : (n idx : ℕ) (ids : List ℕ) → n ≤ idx → plan n idx ids ≡ map off ids
plan-off n idx [] h = refl
plan-off n idx (id ∷ ids) h = ground (arith, plan-off n (idx + 1) ids)

plan-switches : (k idx : ℕ) (ids : List ℕ) → plan (idx + k) idx ids ≡ switches k ids
plan-switches zero idx ids = plan-off (idx + 0) idx ids (omega arith)
plan-switches (suc k) idx [] = refl
plan-switches (suc k) idx (id ∷ ids) = rw (lt→ltb idx (idx + suc k) (omega arith)) (
    ap (λ es. on id ∷ es)
      (ap (λ n. plan n (idx + 1) ids) (omega arith) ∙ plan-switches k (idx + 1) ids))

num_cpus_of :
    (g : LinuxCpuGovernor) (w : World) {boot : ℕ} {rest : List ℕ}
    → g.discovered ≡ boot ∷ rest
    → num_cpus g w ≡ suc (length rest)
unfolding num_cpus
num_cpus_of g w e = rw e

cpu_ids_of :
    (g : LinuxCpuGovernor) (w : World) {boot : ℕ} {rest : List ℕ}
    → g.discovered ≡ boot ∷ rest
    → cpu_ids g w ≡ boot ∷ rest
unfolding cpu_ids
cpu_ids_of g w e = rw e

-- A frequency write inside the range that the governor discovers in `w`.
abbrev pub IsLimitWrite : LinuxCpuGovernor → World → Effect → Type 0
IsLimitWrite g w e =
    (lo : ℕ) × (hi : ℕ) × (discovered_freq_bounds g w ≡ some (lo, hi)) × IsFreqWrite lo hi e

pub set_freq_limit-IsLimitWrite :
    (os : Os) (g : LinuxCpuGovernor) (mhz : ℕ) (w : World)
    → Issues os (IsLimitWrite g w) w (set_freq_limit os g mhz w)
set_freq_limit-IsLimitWrite os g mhz w = elim (Option-cases (discovered_freq_bounds g w)) [
  | inl e ↦ rw (set_freq_limit-none os g mhz w e) stop
  | inr ((lo, hi), e) ↦
      Issues-mono (IsFreqWrite lo hi) (IsLimitWrite g w) (λ x h. (lo, hi, e, h))
        (set_freq_limit-IsFreqWrite os g mhz w e)
]

-- With the discovered CPUs `boot ∷ rest`, `set_online_cores count` first writes the `online` nodes of
-- `rest` and nothing else: with `count` brought into `1..=n` for the `n` CPUs, the first
-- `count - 1` of `rest` are switched on and the others off, in order. What follows are frequency
-- writes inside the range discovered after the switching.
pub set_online_cores-switches :
    (os : Os) (g : LinuxCpuGovernor) (count boot : ℕ) (rest : List ℕ) (w : World)
    → g.discovered ≡ boot ∷ rest
    → (mid : World) × (mid.log ≡ w.log ++ switches (clamp count 1 (suc (length rest)) - 1) rest)
      × Issues os (IsLimitWrite g mid) mid (set_online_cores os g count w)
unfolding set_online_cores reapply_limit
set_online_cores-switches os g count boot rest w e =
    let n = clamp count 1 (suc (length rest)) in
    let bounds = clamp_bounds count 1 (suc (length rest)) (omega arith) in
    let mid = switch_cores os n 1 rest w in
    let planned : plan n 1 rest ≡ switches (n - 1) rest =
      ap (λ m. plan m 1 rest) (omega arith) ∙ plan-switches (n - 1) 1 rest in
    (
      mid,
      switch_cores-log os n 1 rest w ∙ ap (λ es. w.log ++ es) planned,
      rw (num_cpus_of g w e, cpu_ids_of g w e)
          (Issues-if (ltb 0 (freq_limit mid))
            (set_freq_limit-IsLimitWrite os g (freq_limit mid) mid) stop),
    )
