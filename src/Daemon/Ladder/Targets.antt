-- ===== src/Daemon/Ladder/Targets.antt =====
-- The targets of a step: their bounds, and that the cable does not change them.
use wattwarden.Base.{
  Bool-cases, inl, inr, ℕ, ◌≤◌, ◌≡◌, refl, true, false, not, Option, some, arith, clamp_bounds, min,
  max,
}
use wattwarden.Sysfs.{World, Os}
use wattwarden.Core.Error.{ok}
use wattwarden.Core.Config.{Config, AutoExtremeLevel}
use wattwarden.Cpu.Governor.{num_cpus}
use wattwarden.Rapl.{LinuxRapl, pl1_bounds_watts}
use wattwarden.Battery.{LinuxBattery, is_charging}
use wattwarden.Backend.{LinuxBackend}
use wattwarden.Core.Float.{Float}
use wattwarden.Daemon.Ladder.{
  climb, core_ceiling, core_ramp_cores, scale_within, power_target, first_target, targets,
  save_power, idle_result, enabled_step, apply_logic_step,
}

module _ {F : Type 0} (fl : Float F) where
  core_ceiling_bounds :
      (ncpu : ℕ) (c : F)
      → 1 ≤ ncpu
      → (1 ≤ core_ceiling fl ncpu c)
        × (core_ceiling fl ncpu c ≤ ncpu)
        × (min 2 ncpu ≤ core_ceiling fl ncpu c)
  unfolding core_ceiling
  core_ceiling_bounds ncpu c h = (ground arith, ground arith, ground arith)

  -- For every floating point arithmetic, level and load, and at least one CPU: the cores of the
  -- ladder lie between one and the ceiling of the level, the ceiling is at most the number of CPUs,
  -- and where there are two CPUs the ceiling is at least two, so that the ramp is not flat.
  pub core_ramp_cores_bounds :
      (ncpu : ℕ) (c p : F)
      → 1 ≤ ncpu
      → (1 ≤ core_ramp_cores fl ncpu c p)
        × (core_ramp_cores fl ncpu c p ≤ core_ceiling fl ncpu c)
        × (core_ceiling fl ncpu c ≤ ncpu)
        × (min 2 ncpu ≤ core_ceiling fl ncpu c)
  unfolding core_ramp_cores
  core_ramp_cores_bounds ncpu c p h =
      let (low, high, two) = core_ceiling_bounds ncpu c h in
      let inside = clamp_bounds _ 1 (core_ceiling fl ncpu c) low in (inside.0, inside.1, high, two)

  first_target-le :
      (o : Option LinuxRapl) (r : LinuxRapl) (c p : F) (w : World) (lo hi : ℕ)
      → o ≡ some r
      → pl1_bounds_watts r w ≡ some (lo, hi)
      → first_target fl o c p w ≤ hi
  unfolding first_target power_target scale_within
  first_target-le o r c p w lo hi has range = rw (has, range) (omega arith)

  module _ (os : Os) (b : LinuxBackend) (level : AutoExtremeLevel) (w : World) where
    enabled_cores :
        let t = (enabled_step fl os b level w).1 in
        (1 ≤ t.target_cores) × (t.target_cores ≤ max (num_cpus b.cpu w) 1)
    unfolding enabled_step targets
    enabled_cores =
        let (Above, below, within, two) =
          core_ramp_cores_bounds (max (num_cpus b.cpu w) 1) _ _ (omega arith) in
        (Above, omega (arith, below, within))

    enabled_rapl-le :
        (r : LinuxRapl) (lo hi : ℕ)
        → b.rapl ≡ some r
        → pl1_bounds_watts r w ≡ some (lo, hi)
        → (enabled_step fl os b level w).1.target_rapl ≤ hi
    unfolding enabled_step targets
    enabled_rapl-le r lo hi has range = first_target-le b.rapl r _ _ w lo hi has range

module _ {F : Type 0} (fl : Float F) (os : Os) (b : LinuxBackend) (config : Config)
    (w : World) where
  -- For every floating point arithmetic, the cores that a step reports lie between one and the number
  -- of CPUs.
  pub apply_logic_step-target_cores :
      let t = (apply_logic_step fl os b config w).1 in
      (1 ≤ t.target_cores) × (t.target_cores ≤ max (num_cpus b.cpu w) 1)
  unfolding apply_logic_step idle_result
  apply_logic_step-target_cores = elim (Bool-cases (not config.auto_extreme_enabled)) [
    | inl off ↦ rw off (omega arith, omega arith)
    | inr on ↦ rw on (enabled_cores fl os b config.auto_extreme_level w)
  ]

  -- For every floating point arithmetic, the power target that a step reports does not exceed the
  -- range that the machine declares for the long-term limit.
  pub apply_logic_step-target_rapl :
      (r : LinuxRapl) (lo hi : ℕ)
      → b.rapl ≡ some r
      → pl1_bounds_watts r w ≡ some (lo, hi)
      → (apply_logic_step fl os b config w).1.target_rapl ≤ hi
  unfolding apply_logic_step idle_result
  apply_logic_step-target_rapl r lo hi has range =
      elim (Bool-cases (not config.auto_extreme_enabled)) [
        | inl off ↦ rw off (omega arith)
        | inr on ↦ rw on (enabled_rapl-le fl os b config.auto_extreme_level w r lo hi has range)
      ]

  -- A plugged in machine and one on battery climb the same ladder: in enabled mode, with another
  -- battery in place that is not charging, the step reports the same targets, and the machine is left
  -- as the plugged in one is, with the peripherals put to rest after that.
  pub apply_logic_step_cable :
      (bat : LinuxBattery)
      → config.auto_extreme_enabled ≡ true
      → is_charging b.battery w ≡ ok true
      → is_charging bat w ≡ ok false
      → let plugged = apply_logic_step fl os b config w in
        let unplugged = apply_logic_step fl os (record b { battery = bat }) config w in
        (unplugged.0 ≡ save_power fl os b plugged.0)
        × (unplugged.1 ≡ record plugged.1 { charging = false })
  unfolding apply_logic_step enabled_step targets climb save_power
  apply_logic_step_cable bat on charging draining = rw (on, charging, draining) (refl, refl)
