-- ===== src/Daemon/Runner/OptIn.antt =====
-- Nothing is written that the user has not enabled.
use wattwarden.Base.{ℕ, ◌≡◌, refl, ap, ◌∙◌, Bool, false, Option, none, List, [], ◌∷◌, All}
use wattwarden.Sysfs.{World, Os}
use wattwarden.Core.Config.{Config, default_config}
use wattwarden.Threshold.Set.{linux_threshold}
use wattwarden.Core.Traits.{ChargeThreshold}
use wattwarden.Backlight.{LinuxBacklight}
use wattwarden.Backend.{LinuxBackend, if_some, apply_profile}
use wattwarden.Core.Float.{Float}
use wattwarden.Daemon.Ladder.Safe.{apply_logic_step_disabled}
use wattwarden.Daemon.Runner.{
  brighten, Runner, enforce, enforce_charge_limit, apply_boot_settings, apply_brightness_step,
  apply_logic, Tick, logic, brightness_tick, on_tick, ticks, run_loop,
}

-- A configuration that enables nothing.
pub record IsOff (config : Config) : Type 0 where
  pub no_ladder : config.auto_extreme_enabled ≡ false
  pub no_brightness : config.auto_brightness ≡ false
  pub no_profile : config.profile ≡ none
  pub no_limit : config.battery_charge_limit ≡ none

abbrev pub default_off : IsOff default_config
default_off = record { no_ladder = refl; no_brightness = refl; no_profile = refl; no_limit = refl }

abbrev pub IsIdle : Tick → Type 0
IsIdle (logic config now) = IsOff config
IsIdle (brightness_tick config class) = IsOff config

enforce-none :
    {S : Type 0} (threshold : ChargeThreshold S) (o : Option ℕ) (now : ℕ) (s : S) (r : Runner)
    → o ≡ none
    → enforce threshold o now s r ≡ (s, r)
unfolding enforce
enforce-none threshold o now s r e = rw e refl

enforce_charge_limit_idle :
    {S : Type 0} (threshold : ChargeThreshold S) (config : Config) (now : ℕ) (s : S) (r : Runner)
    → IsOff config
    → enforce_charge_limit threshold config now s r ≡ (s, r)
unfolding enforce_charge_limit
enforce_charge_limit_idle threshold config now s r off =
    enforce-none threshold config.battery_charge_limit now s r off.no_limit

brighten_idle :
    (on : Bool) (os : Os) (o : Option LinuxBacklight) (p : ℕ) (w : World) (r : Runner)
    → on ≡ false
    → brighten on os o p w r ≡ (w, r, none)
unfolding brighten
brighten_idle on os o p w r e = rw e refl

module _ {F : Type 0} (fl : Float F) (os : Os) (b : LinuxBackend) where
  on_tick_idle : (t : Tick) (w : World) (r : Runner) → IsIdle t → on_tick fl os b t w r ≡ (w, r)
  unfolding on_tick apply_logic apply_brightness_step
  on_tick_idle (logic config now) w r off =
      enforce_charge_limit_idle (linux_threshold os b.threshold) config now _ r off
      ∙ ap (λ v. (v, r)) (apply_logic_step_disabled fl os b config w off.no_ladder).0
  on_tick_idle (brightness_tick config class) w r off =
      ap (λ s. (s.0, s.1))
        (brighten_idle config.auto_brightness os b.backlight _ w r off.no_brightness)

  if_some-none :
      {A : Type 0} (o : Option A) (f : A → World → World) (w : World) → o ≡ none → if_some o f w ≡ w
  if_some-none o f w e = rw e refl

  ticks_idle :
      (ts : List Tick) (w : World) (r : Runner) → All IsIdle ts → ticks fl os b ts w r ≡ (w, r)
  unfolding ticks
  ticks_idle [] w r h = refl
  ticks_idle (t ∷ ts) w r (off, offs) = rw (on_tick_idle t w r off) (ticks_idle ts w r offs)

  apply_boot_settings_idle :
      (config : Config) (now : ℕ) (w : World) (r : Runner)
      → IsOff config
      → apply_boot_settings os b config now w r ≡ (w, r)
  unfolding apply_boot_settings
  apply_boot_settings_idle config now w r off =
      enforce_charge_limit_idle (linux_threshold os b.threshold) config now _ r off
      ∙ ap (λ v. (v, r)) (if_some-none config.profile (apply_profile os b) w off.no_profile)

  -- The loop of a daemon that finds a configuration with nothing enabled, at boot and at every tick, leaves the
  -- machine as it was, however long it runs.
  pub run_loop_idle :
      (config : Config) (now : ℕ) (first second : Tick) (ts : List Tick) (w : World) (r : Runner)
      → IsOff config
      → All IsIdle (first ∷ second ∷ ts)
      → run_loop fl os b config now first second ts w r ≡ (w, r)
  unfolding run_loop
  run_loop_idle config now first second ts w r off idle =
      rw (apply_boot_settings_idle config now w r off) (ticks_idle (first ∷ second ∷ ts) w r idle)
