-- ===== src/Backend/Moves.antt =====
-- What the operations of the components do to the machine, one after another.
pub mod Operations
pub mod Tweaked
pub mod Lit
use wattwarden.Base.{
  ℕ, ◌+◌, ◌≤◌, ◌<◌, ℤ, pos, mul_i64, div_i64, to_string_ℤ, ◌≡◌, refl, sym, ◌⊎◌, inl, inr, Text,
  text, Bool, true, false, Option, none, some, List, [], ◌∷◌, ◌++◌, arith, ltb, clamp, clamp_bounds,
  to_string, if◌then◌else◌, each, skip_one, Option-cases, ends_with, text_eq, keep,
}
use wattwarden.Sysfs.{
  World, Os, Effect, write, run, Node, Bus, cpu, online, energy_performance_preference,
  scaling_governor, no_turbo, boost, power_control, usb, pci, iwlwifi_power_save,
  snd_hda_power_save, snd_hda_power_save_controller, nmi_watchdog, dirty_writeback, led_brightness,
  brightness, exists, write_best_effort, run_ignored, read,
}
use wattwarden.Sysfs.Issues.{
  Issues, stop, Issues-trans, Issues-write, Issues-run, Issues-if, Issues-each, Issues-mono,
}
use wattwarden.Sysfs.Stable.{Keeps}
use wattwarden.Cpu.Governor.{LinuxCpuGovernor, cpu_ids, num_cpus}
use wattwarden.Cpu.Freq.{discovered_freq_bounds, freq_limit, set_freq_limit}
use wattwarden.Cpu.Cores.{switch_cores, reapply_limit, set_online_cores}
use wattwarden.Cpu.Cores.Plan.{on, off, IsLimitWrite, set_freq_limit-IsLimitWrite}
use wattwarden.Cpu.Preference.{
  resolve_epp, resolve_governor, write_epp, write_governor, write_governors, write_preference,
  set_turbo_enabled, set_energy_performance_preference,
}
use wattwarden.Rapl.{LinuxRapl, long_term, short_term, set_pl1_watts, set_pl2_watts}
use wattwarden.Rapl.Writes.{IsPowerWrite, IsPowerLimit, IsConstraint, write_constraint-Issues}
use wattwarden.Gpu.{LinuxGpu, discovered_gpu_bounds, set_gpu_freq}
use wattwarden.Gpu.Clamped.{IsGpuWrite, set_gpu_freq-Issues, set_gpu_freq-none}
use wattwarden.Aspm.{available_policies, set_aspm_policy}
use wattwarden.Aspm.Advertised.{IsPolicyWrite, set_aspm_policy-Issues}
use wattwarden.Backlight.{max_of, devices, write_device, set_brightness_percent}
use wattwarden.Backend.{LinuxBackend}

-- A switch of one of the cores.
abbrev pub IsSwitch : List ℕ → Effect → Type 0
IsSwitch [] e = ⊥
IsSwitch (id ∷ ids) e = (e ≡ on id) ⊎ (e ≡ off id) ⊎ IsSwitch ids e

abbrev pub IsGpuLimit : LinuxGpu → World → Effect → Type 0
IsGpuLimit g w e =
    (lo : ℕ) × (hi : ℕ) × (discovered_gpu_bounds g w ≡ some (lo, hi)) × IsGpuWrite lo hi e

-- A preference, or a governor, that the machine resolves the requested one to.
pub data IsPreferenceWrite (w : World) (pref : Text) : Effect → Type 0 where
  preferred :
      (id : ℕ) (p : Text)
      → resolve_epp w pref ≡ some p
      → IsPreferenceWrite w pref (write (cpu id energy_performance_preference) p)

pub data IsGovernorWrite (w : World) (gov : Text) : Effect → Type 0 where
  governed :
      (id : ℕ) (g : Text)
      → resolve_governor w gov ≡ some g
      → IsGovernorWrite w gov (write (cpu id scaling_governor) g)

-- Any number of writes of `p` percent of the maximum that a device declares when it is written, and of
-- calls of the tool for `p` percent.
pub data Brightens (os : Os) (p : ℕ) : World → World → Type 0 where
  dimmed : {w : World} → Brightens os p w w
  raw :
      {w w' : World} (device : Text) (maximum : ℕ)
      → max_of w device ≡ pos maximum
      → 0 < maximum
      → Brightens os p
          (write_best_effort os
            (brightness device)
            (to_string_ℤ (div_i64 (mul_i64 (pos p) (pos maximum)) 100))
            w)
          w'
      → Brightens os p w w'
  tool :
      {w w' : World}
      → Brightens os p
          (run_ignored os (text "brightnessctl" ∷ text "set" ∷ (to_string p ++ text "%") ∷ []) w)
          w'
      → Brightens os p w w'

pub data IsSwitchNode : Node → Type 0 where
  is_no_turbo : IsSwitchNode no_turbo
  is_boost : IsSwitchNode boost
  is_control : (bus : Bus) (device : Text) → IsSwitchNode (power_control bus device)
  is_iwlwifi : IsSwitchNode iwlwifi_power_save
  is_audio : IsSwitchNode snd_hda_power_save
  is_controller : IsSwitchNode snd_hda_power_save_controller
  is_watchdog : IsSwitchNode nmi_watchdog
  is_led : (led : Text) → IsSwitchNode (led_brightness led)

-- A write to a node that has no range, a writeback time in 1..=60 seconds, or a call of `iw`.
pub data IsTweak : Effect → Type 0 where
  switched : (p : Node) (s : Text) → IsSwitchNode p → IsTweak (write p s)
  writeback : (cs : ℕ) → 100 ≤ cs → cs ≤ 6000 → IsTweak (write dirty_writeback (to_string cs))
  wifi : (args : List Text) → IsTweak (run (text "iw" ∷ args))

-- One operation of a component, in terms of what the machine declares when it begins.
pub data Move (os : Os) (b : LinuxBackend) : World → World → Type 0 where
  cores : {w w' : World} → Issues os (IsSwitch (skip_one (cpu_ids b.cpu w))) w w' → Move os b w w'
  frequency : {w w' : World} → Issues os (IsLimitWrite b.cpu w) w w' → Move os b w w'
  power :
      {w w' : World} (r : LinuxRapl) (name : Text)
      → b.rapl ≡ some r
      → Issues os (IsPowerWrite w name) w w'
      → Move os b w w'
  gpu_limit :
      {w w' : World} (g : LinuxGpu)
      → b.gpu ≡ some g
      → Issues os (IsGpuLimit g w) w w'
      → Move os b w w'
  preference :
      {w w' : World} (pref : Text) → Issues os (IsPreferenceWrite w pref) w w' → Move os b w w'
  governor : {w w' : World} (gov : Text) → Issues os (IsGovernorWrite w gov) w w' → Move os b w w'
  policy :
      {w w' : World} (p : Text)
      → Issues os (IsPolicyWrite (available_policies w) p) w w'
      → Move os b w w'
  tweak : {w w' : World} → Issues os IsTweak w w' → Move os b w w'

pub data Moves (os : Os) (b : LinuxBackend) : World → World → Type 0 where
  halt : {w : World} → Moves os b w w
  followed : {u v w : World} → Move os b u v → Moves os b v w → Moves os b u w

pub Moves-trans :
    {os : Os} {b : LinuxBackend} {u v w : World} → Moves os b u v → Moves os b v w → Moves os b u w
Moves-trans halt n = n
Moves-trans (followed m ms) n = followed m (Moves-trans ms n)

pub one : {os : Os} {b : LinuxBackend} {w w' : World} → Move os b w w' → Moves os b w w'
one m = followed m halt

-- Moves, and settings of the brightness to 1..=100 percent.
pub data LitMoves (os : Os) (b : LinuxBackend) : World → World → Type 0 where
  unlit : {w w' : World} → Moves os b w w' → LitMoves os b w w'
  brightened : {w w' : World} (p : ℕ) → 1 ≤ p → p ≤ 100 → Brightens os p w w' → LitMoves os b w w'
  then_lit : {u v w : World} → LitMoves os b u v → LitMoves os b v w → LitMoves os b u w
