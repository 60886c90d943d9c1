-- ===== src/Backend/Moves/Operations.antt =====
-- The operations of the processor, the power limits, the GPU and ASPM as moves.
use wattwarden.Base.{
  ℕ, ◌+◌, ◌≡◌, refl, inl, inr, Text, text, Bool, true, false, Option, none, some, List, [], ◌∷◌,
  ltb, clamp, if◌then◌else◌, skip_one, Option-cases,
}
use wattwarden.Sysfs.{
  World, Os, write, cpu, online, energy_performance_preference, scaling_governor, no_turbo, boost,
  exists,
}
use wattwarden.Sysfs.Issues.{
  Issues, stop, Issues-trans, Issues-write, Issues-if, Issues-each, Issues-mono,
}
use wattwarden.Sysfs.Stable.{Keeps}
use wattwarden.Cpu.Governor.{cpu_ids, num_cpus}
use wattwarden.Cpu.Freq.{freq_limit, set_freq_limit}
use wattwarden.Cpu.Cores.{switch_cores, reapply_limit, set_online_cores}
use wattwarden.Cpu.Cores.Plan.{on, set_freq_limit-IsLimitWrite}
use wattwarden.Cpu.Preference.{
  resolve_epp, resolve_governor, write_epp, write_governor, write_governors, write_preference,
  set_turbo_enabled, set_energy_performance_preference,
}
use wattwarden.Rapl.{LinuxRapl, long_term, short_term, set_pl1_watts, set_pl2_watts}
use wattwarden.Rapl.Writes.{IsPowerLimit, IsConstraint, write_constraint-Issues}
use wattwarden.Gpu.{LinuxGpu, discovered_gpu_bounds, set_gpu_freq}
use wattwarden.Gpu.Clamped.{IsGpuWrite, set_gpu_freq-Issues, set_gpu_freq-none}
use wattwarden.Aspm.{set_aspm_policy}
use wattwarden.Aspm.Advertised.{set_aspm_policy-Issues}
use wattwarden.Backend.{LinuxBackend}
use wattwarden.Backend.Moves.{
  IsSwitch, IsGpuLimit, preferred, governed, switched, is_no_turbo, is_boost, Move, cores,
  frequency, power, gpu_limit, preference, governor, policy, tweak, Moves, halt, followed, one,
}

module _ (os : Os) (b : LinuxBackend) where
  switch_cores-Issues :
      (n idx : ℕ) (ids : List ℕ) (w : World)
      → Issues os (IsSwitch ids) w (switch_cores os n idx ids w)
  unfolding switch_cores
  switch_cores-Issues n idx [] w = stop
  switch_cores-Issues n idx (id ∷ ids) w =
      Issues-trans (Issues-write (cpu id online) _ (switch (ltb idx n))) (
        Issues-mono (IsSwitch ids) (IsSwitch (id ∷ ids)) (λ e h. inr (inr h))
          (switch_cores-Issues n (idx + 1) ids _))
    where
      switch :
          (on_now : Bool)
          → IsSwitch (id ∷ ids) (write (cpu id online) (if on_now then text "1" else text "0"))
      switch true = inl refl
      switch false = inr (inl refl)

  pub set_freq_limit-Moves : (mhz : ℕ) (w : World) → Moves os b w (set_freq_limit os b.cpu mhz w)
  set_freq_limit-Moves mhz w = one (frequency (set_freq_limit-IsLimitWrite os b.cpu mhz w))

  reapply_limit-Moves : (w : World) → Moves os b w (reapply_limit os b.cpu w)
  unfolding reapply_limit
  reapply_limit-Moves w = one (
      frequency (
        Issues-if (ltb 0 (freq_limit w)) (set_freq_limit-IsLimitWrite os b.cpu (freq_limit w) w)
          stop))

  pub set_online_cores-Moves : (n : ℕ) (w : World) → Moves os b w (set_online_cores os b.cpu n w)
  unfolding set_online_cores
  set_online_cores-Moves n w =
      followed
        (cores
          (switch_cores-Issues (clamp n 1 (num_cpus b.cpu w)) 1 (skip_one (cpu_ids b.cpu w)) w))
        (reapply_limit-Moves _)

  pub set_turbo_enabled-Moves : (on : Bool) (w : World) → Moves os b w (set_turbo_enabled os on w)
  unfolding set_turbo_enabled
  set_turbo_enabled-Moves on w = one (
      tweak (
        Issues-if (exists w no_turbo) (Issues-write no_turbo _ (switched no_turbo _ is_no_turbo))
          (Issues-if (exists w boost) (Issues-write boost _ (switched boost _ is_boost)) stop)))

  write_governors-Move :
      (gov : Text) (o : Option Text) (w : World)
      → resolve_governor w gov ≡ o
      → Move os b w (write_governors os b.cpu o w)
  unfolding write_governors write_governor
  write_governors-Move gov none w e = tweak stop
  write_governors-Move gov (some g) w e = governor gov (
      Issues-each (write_governor os g)
        (λ id v.
          Issues-if (exists v (cpu id scaling_governor))
            (Issues-write (cpu id scaling_governor) g (governed id g e)) stop)
        (cpu_ids b.cpu w) w)

  write_preference-Moves :
      (pref : Text) (o : Option Text) (w : World)
      → resolve_epp w pref ≡ o
      → Moves os b w (write_preference os b.cpu o w)
  unfolding write_preference write_epp
  write_preference-Moves pref none w e = halt
  write_preference-Moves pref (some p) w e =
      followed
        (preference pref (
          Issues-each (write_epp os p)
            (λ id v.
              Issues-if (exists v (cpu id energy_performance_preference))
                (Issues-write (cpu id energy_performance_preference) p (preferred id p e)) stop)
            (cpu_ids b.cpu w) w))
        (one (write_governors-Move _ _ _ refl))

  pub set_energy_performance_preference-Moves :
      (pref : Text) (w : World) → Moves os b w (set_energy_performance_preference os b.cpu pref w)
  unfolding set_energy_performance_preference
  set_energy_performance_preference-Moves pref w = write_preference-Moves pref _ w refl

  pub set_gpu_freq-Moves :
      (g : LinuxGpu)
      → b.gpu ≡ some g
      → (mhz : ℕ) (w : World) → Moves os b w (set_gpu_freq os g mhz w)
  set_gpu_freq-Moves g has mhz w = elim (Option-cases (discovered_gpu_bounds g w)) [
    | inl e ↦ rw (set_gpu_freq-none os g mhz w e) halt
    | inr ((lo, hi), e) ↦ one (
        gpu_limit g has (
          Issues-mono (IsGpuWrite lo hi) (IsGpuLimit g w) (λ x h. (lo, hi, e, h))
            (set_gpu_freq-Issues os g mhz w e)))
  ]

  pub set_aspm_policy-Moves : (p : Text) (w : World) → Moves os b w (set_aspm_policy os p w)
  set_aspm_policy-Moves p w = one (policy p (set_aspm_policy-Issues os p w))

  pub set_pl1_watts-Moves :
      Keeps os IsPowerLimit IsConstraint
      → (r : LinuxRapl) → b.rapl ≡ some r
      → (watts : ℕ) (w : World) → Moves os b w (set_pl1_watts os r watts w)
  unfolding set_pl1_watts
  set_pl1_watts-Moves keeps r has watts w =
      one (power r long_term has (write_constraint-Issues os keeps r long_term watts w))

  pub set_pl2_watts-Moves :
      Keeps os IsPowerLimit IsConstraint
      → (r : LinuxRapl) → b.rapl ≡ some r
      → (watts : ℕ) (w : World) → Moves os b w (set_pl2_watts os r watts w)
  unfolding set_pl2_watts
  set_pl2_watts-Moves keeps r has watts w =
      one (power r short_term has (write_constraint-Issues os keeps r short_term watts w))
