-- ===== src/Daemon/Ladder.antt =====
-- `core_ceiling`, `core_ramp_cores`, `scale_within` and `apply_logic_step`.
pub mod Targets
pub mod Safe
use wattwarden.Base.{
  ℕ, ◌-◌, ◌+◌, Text, text, Bool, true, false, not, Option, none, some, List, [], ◌∷◌, leb, clamp,
  min, max, if◌then◌else◌, split_whitespace,
}
use wattwarden.Sysfs.{World, Os, loadavg, read}
use wattwarden.Core.Error.{unwrap_or}
use wattwarden.Core.Config.{Config, AutoExtremeLevel, low, medium, high}
use wattwarden.Cpu.Governor.{num_cpus}
use wattwarden.Cpu.Freq.{discovered_freq_bounds, set_freq_limit}
use wattwarden.Cpu.Cores.{set_online_cores}
use wattwarden.Cpu.Preference.{set_turbo_enabled, set_energy_performance_preference}
use wattwarden.Rapl.{LinuxRapl, pl1_bounds_watts, pl2_bounds_watts, set_pl1_watts, set_pl2_watts}
use wattwarden.Gpu.{LinuxGpu, discovered_gpu_bounds, set_gpu_freq}
use wattwarden.Aspm.{set_aspm_policy}
use wattwarden.Battery.{is_charging}
use wattwarden.Tweaks.{
  set_wifi_power_save, set_audio_power_save, set_autosuspend, set_nmi_watchdog,
  set_vm_writeback_seconds, set_kbd_backlight,
}
use wattwarden.Backend.{LinuxBackend, if_some}
use wattwarden.Core.Float.{Float}

pub record LogicStepResult (F : Type 0) : Type 0 where
  pub charging : Bool
  pub applied : Bool
  pub discrete_power : F
  pub target_cores : ℕ
  pub target_freq : ℕ
  pub target_gpu : ℕ
  pub target_rapl : ℕ
  pub target_turbo : Bool
  pub target_epp : Text

module _ {F : Type 0} (fl : Float F) where
  -- The ceiling of online cores for a level: at least 2 where there are 2.
  unfoldable pub core_ceiling : ℕ → F → ℕ
  core_ceiling ncpu level_ceiling =
      if leb ncpu 1
      then 1
      else clamp (fl.as_usize (fl.ceil (fl.mul (fl.of_nat ncpu) level_ceiling))) 2 ncpu

  unfoldable pub core_ramp_cores : ℕ → F → F → ℕ
  core_ramp_cores ncpu level_ceiling discrete_power =
      let ceiling = core_ceiling ncpu level_ceiling in
      clamp
        (fl.as_usize
          (fl.round (fl.add (fl.ratio 1 1) (fl.mul discrete_power (fl.of_nat (ceiling - 1))))))
        1 ceiling

  -- Called with `min < max`, so the subtraction does not wrap.
  unfoldable pub scale_within : ℕ → ℕ → F → F → ℕ
  scale_within lo hi level_ceiling discrete_power =
      let ceiling = fl.add (fl.of_nat lo) (fl.mul (fl.of_nat (hi - lo)) level_ceiling) in
      let value = fl.add (fl.of_nat lo) (fl.mul discrete_power (fl.sub ceiling (fl.of_nat lo))) in
      min (fl.as_u32 value) hi

  abbrev or_idle : Option F → F
  or_idle none = fl.ratio 0 1
  or_idle (some load) = load

  abbrev parse_first : List Text → Option F
  parse_first [] = none
  parse_first (word ∷ words) = fl.parse word

  unfoldable pub load_average : World → F
  load_average w = or_idle (parse_first (split_whitespace (read w loadavg)))

  unfoldable pub level_ceiling_of : AutoExtremeLevel → F
  level_ceiling_of high = fl.ratio 4 10
  level_ceiling_of medium = fl.ratio 7 10
  level_ceiling_of low = fl.ratio 1 1

  -- `min as f64 + (max as f64 - min as f64) * by`, truncated
  abbrev between : ℕ → ℕ → F → ℕ
  between lo hi by =
      fl.as_u32 (fl.add (fl.of_nat lo) (fl.mul (fl.sub (fl.of_nat hi) (fl.of_nat lo)) by))

  -- `min as f64 + by * (max as f64 - min as f64)`, truncated
  abbrev part_of : ℕ → F → ℕ → ℕ
  part_of lo by hi =
      fl.as_u32 (fl.add (fl.of_nat lo) (fl.mul by (fl.sub (fl.of_nat hi) (fl.of_nat lo))))

  -- The target in a range, below the ceiling of the level.
  ladder_target : F → F → ℕ × ℕ → ℕ
  ladder_target ceiling discrete_power (lo, hi) = part_of lo discrete_power (between lo hi ceiling)

  abbrev or_zeros : Option (ℕ × ℕ) → ℕ × ℕ
  or_zeros none = (0, 0)
  or_zeros (some range) = range

  abbrev gpu_range : Option LinuxGpu → World → Option (ℕ × ℕ)
  gpu_range none w = none
  gpu_range (some g) w = discovered_gpu_bounds g w

  -- `load / ncpu`, at most 1, in steps of a third.
  unfoldable pub discrete_power_of : F → ℕ → F
  discrete_power_of load ncpu =
      let power_level = fl.least (fl.div load (fl.of_nat ncpu)) (fl.ratio 1 1) in
      fl.div (fl.round (fl.mul power_level (fl.ratio 3 1))) (fl.ratio 3 1)

  target_turbo_of : AutoExtremeLevel → F → Bool
  target_turbo_of high p = fl.le (fl.ratio 8 10) p
  target_turbo_of medium p = fl.le (fl.div (fl.ratio 2 1) (fl.ratio 3 1)) p
  target_turbo_of low p = fl.le (fl.div (fl.ratio 1 1) (fl.ratio 3 1)) p

  target_epp_of : AutoExtremeLevel → F → Text
  target_epp_of high p = text "power"
  target_epp_of medium p = text "power"
  target_epp_of low p =
      if fl.lt p (fl.ratio 5 10) then text "balance_power" else text "balance_performance"

  power_target : F → F → Option (ℕ × ℕ) → Option ℕ
  power_target ceiling p none = none
  power_target ceiling p (some (lo, hi)) = some (scale_within lo hi ceiling p)

  abbrev or_nothing : Option ℕ → ℕ
  or_nothing none = 0
  or_nothing (some target) = target

  -- Each constraint has its own range; the second is read after the first is written.
  limit_power : Os → F → F → LinuxRapl → World → World
  unfolding power_target
  limit_power os ceiling p r w =
      let v = if_some (power_target ceiling p (pl1_bounds_watts r w)) (set_pl1_watts os r) w in
      if_some (power_target ceiling p (pl2_bounds_watts r v)) (set_pl2_watts os r) v

  first_target : Option LinuxRapl → F → F → World → ℕ
  unfolding power_target
  first_target none ceiling p w = 0
  first_target (some r) ceiling p w = or_nothing (power_target ceiling p (pl1_bounds_watts r w))

  -- The result of a step in enabled mode, computed before anything is written.
  targets : LinuxBackend → AutoExtremeLevel → World → LogicStepResult F
  unfolding ladder_target target_turbo_of target_epp_of first_target
  targets b level w =
      let ncpu = max (num_cpus b.cpu w) 1 in
      let p = discrete_power_of (load_average w) ncpu in
      let ceiling = level_ceiling_of level in
      record {
        charging = unwrap_or false (is_charging b.battery w);
        applied = true;
        discrete_power = p;
        target_cores = core_ramp_cores ncpu ceiling p;
        target_freq = ladder_target ceiling p (or_zeros (discovered_freq_bounds b.cpu w));
        target_gpu = ladder_target ceiling p (or_zeros (gpu_range b.gpu w));
        target_rapl = first_target b.rapl ceiling p w;
        target_turbo = target_turbo_of level p;
        target_epp = target_epp_of level p;
      }

  -- The writes of the ladder, in the order of the source.
  climb : Os → LinuxBackend → AutoExtremeLevel → LogicStepResult F → World → World
  unfolding limit_power
  climb os b level t w =
      let powered = if_some b.rapl (limit_power os (level_ceiling_of level) t.discrete_power) w in
      let cored = set_online_cores os b.cpu t.target_cores powered in
      let limited = set_freq_limit os b.cpu t.target_freq cored in
      let drawn = if_some b.gpu (λ g. set_gpu_freq os g t.target_gpu) limited in
      set_turbo_enabled os t.target_turbo
        (set_energy_performance_preference os b.cpu t.target_epp drawn)

  -- The peripherals, on battery only.
  pub save_power : Os → LinuxBackend → World → World
  save_power os b w =
      let linked = if_some b.aspm (λ a. set_aspm_policy os (text "powersave")) w in
      let dark = set_kbd_backlight os false (set_wifi_power_save os true linked) in
      let suspended = set_autosuspend os true (set_audio_power_save os true dark) in
      set_vm_writeback_seconds os 60 (set_nmi_watchdog os false suspended)

  -- Disabled: nothing is touched.
  idle_result : LinuxBackend → World → LogicStepResult F
  idle_result b w = record {
    charging = unwrap_or false (is_charging b.battery w);
    applied = false;
    discrete_power = fl.ratio 1 1;
    target_cores = max (num_cpus b.cpu w) 1;
    target_freq = 0;
    target_gpu = 0;
    target_rapl = 0;
    target_turbo = true;
    target_epp = text "performance";
  }

  enabled_step : Os → LinuxBackend → AutoExtremeLevel → World → World × LogicStepResult F
  unfolding targets climb save_power
  enabled_step os b level w =
      let t = targets b level w in
      let climbed = climb os b level t w in
      (if t.charging then climbed else save_power os b climbed, t)

  unfoldable pub apply_logic_step : Os → LinuxBackend → Config → World → World × LogicStepResult F
  unfolding idle_result enabled_step
  apply_logic_step os b config w =
      if not config.auto_extreme_enabled
      then (w, idle_result b w)
      else enabled_step os b config.auto_extreme_level w
