-- ===== src/Backend.antt =====
-- crates/wattwarden-platform/src/linux/mod.rs: `LinuxBackend`, which holds the components, and the
-- profiles. The compositor's socket is not modelled.
pub mod Capabilities
pub mod Moves
pub mod Profiles
use wattwarden.Base.{not, ℕ, Text, text, Bool, true, false, Option, none, some, List, [], ◌∷◌, min}
use wattwarden.Sysfs.{World, Os}
use wattwarden.Core.Config.{PowerProfile, normal, performance, extreme, auto_extreme}
use wattwarden.Cpu.Governor.{LinuxCpuGovernor, num_cpus}
use wattwarden.Cpu.Governor
use wattwarden.Cpu.Freq.{discovered_freq_bounds, set_freq_limit}
use wattwarden.Cpu.Cores.{set_online_cores}
use wattwarden.Cpu.Preference.{set_turbo_enabled, set_energy_performance_preference}
use wattwarden.Rapl.{LinuxRapl, pl1_bounds_watts, pl2_bounds_watts, set_pl1_watts, set_pl2_watts}
use wattwarden.Rapl
use wattwarden.Gpu.{LinuxGpu, discovered_gpu_bounds, set_gpu_freq}
use wattwarden.Gpu
use wattwarden.Aspm.{LinuxAspm, set_aspm_policy}
use wattwarden.Aspm
use wattwarden.Backlight.{LinuxBacklight, set_brightness_percent}
use wattwarden.Backlight
use wattwarden.Battery.{LinuxBattery}
use wattwarden.Battery
use wattwarden.Threshold.Nodes.{LinuxChargeThreshold}
use wattwarden.Threshold.Nodes
use wattwarden.Tweaks.{
  set_wifi_power_save, set_audio_power_save, set_autosuspend, set_nmi_watchdog,
  set_vm_writeback_seconds, set_kbd_backlight,
}

pub record LinuxBackend : Type 0 where
  pub battery : LinuxBattery
  pub cpu : LinuxCpuGovernor
  pub rapl : Option LinuxRapl
  pub gpu : Option LinuxGpu
  pub aspm : Option LinuxAspm
  pub backlight : Option LinuxBacklight
  pub threshold : LinuxChargeThreshold

unfoldable pub with_root : World → LinuxBackend
with_root w = record {
  battery = Battery.with_root w;
  cpu = Governor.with_root w;
  rapl = Rapl.with_root w;
  gpu = Gpu.with_root w;
  aspm = Aspm.with_root w;
  backlight = Backlight.with_root w;
  threshold = Nodes.with_root;
}

-- `if let Some(a)`
abbrev pub if_some : {A : Type 0} → Option A → (A → World → World) → World → World
if_some none f w = w
if_some (some a) f w = f a w

-- `if let Some((min, max)) = …`, where one end of the range is then set.
abbrev pub set_end : (ℕ × ℕ → ℕ) → (ℕ → World → World) → Option (ℕ × ℕ) → World → World
set_end end set none w = w
set_end end set (some range) w = set (end range) w

-- Both power limits at one end of their ranges; the second range is read after the first write.
limit_power : Os → (ℕ × ℕ → ℕ) → LinuxRapl → World → World
limit_power os end r w =
    let v = set_end end (set_pl1_watts os r) (pl1_bounds_watts r w) w in
    set_end end (set_pl2_watts os r) (pl2_bounds_watts r v) v

limit_gpu : Os → (ℕ × ℕ → ℕ) → LinuxGpu → World → World
limit_gpu os end g w = set_end end (set_gpu_freq os g) (discovered_gpu_bounds g w) w

-- What the profiles do to the hardware: cores, the end of the ranges, turbo, the hints and the
-- brightness.
set_hardware : Os → LinuxBackend → ℕ → (ℕ × ℕ → ℕ) → Bool → Text → Text → ℕ → World → World
unfolding limit_power limit_gpu
set_hardware os b cores end turbo epp policy percent w =
    let cored = set_online_cores os b.cpu cores w in
    let limited =
      set_end end (set_freq_limit os b.cpu) (discovered_freq_bounds b.cpu cored) cored in
    let hinted =
      set_energy_performance_preference os b.cpu epp (set_turbo_enabled os turbo limited) in
    let powered = if_some b.rapl (limit_power os end) hinted in
    let drawn = if_some b.gpu (limit_gpu os end) powered in
    let linked = if_some b.aspm (λ a. set_aspm_policy os policy) drawn in
    if_some b.backlight (λ l. set_brightness_percent os percent) linked

set_tweaks : Os → Bool → ℕ → World → World
set_tweaks os saving seconds w =
    let audio = set_audio_power_save os saving (set_wifi_power_save os saving w) in
    let suspended = set_autosuspend os saving audio in
    let watched = set_nmi_watchdog os (not saving) suspended in
    set_vm_writeback_seconds os seconds watched

abbrev pub upper : ℕ × ℕ → ℕ
upper range = range.1

abbrev pub lower_end : ℕ × ℕ → ℕ
lower_end range = range.0

-- The errors of the setters are dropped, so the result is always `Ok`.
unfoldable pub apply_profile : Os → LinuxBackend → PowerProfile → World → World
unfolding set_hardware set_tweaks
apply_profile os b performance w = set_tweaks os false 5 (
    set_hardware os b (num_cpus b.cpu w) upper true (text "performance") (text "performance") 100 w)
apply_profile os b extreme w = set_tweaks os true 60 (
    set_kbd_backlight os false (
      set_hardware os b (min 2 (num_cpus b.cpu w)) lower_end false (text "power") (text "powersave")
        10 w))
apply_profile os b normal w =
    set_tweaks os false 5
      (set_hardware os b (num_cpus b.cpu w) upper true (text "default") (text "default") 100 w)
apply_profile os b auto_extreme w =
    set_energy_performance_preference os b.cpu (text "balance_power") w
