-- ===== src/Tests/Policies.antt =====
-- The profiles and the daemon on the laptop.
use wattwarden.Base.{
  ℕ, ◌≡◌, refl, List, ap, text, true, false, Option, some, [], ◌∷◌, arith, trim, contains,
  parse_i64,
}
use wattwarden.Sysfs.{World, read, read_i64, run_ignored, write_best_effort}
use wattwarden.Core.Error.{ok}
use wattwarden.Core.Config.{Config, extreme, default_config}
use wattwarden.Rapl.Writes.{IsPowerLimit, IsConstraint}
use wattwarden.Battery.{LinuxBattery, is_charging, bat}
use wattwarden.Backlight.{brightness_percent, set_brightness_percent, max_of}
use wattwarden.Backlight
use wattwarden.Threshold.Set.{linux_threshold, charge_threshold}
use wattwarden.Backend.{LinuxBackend, apply_profile}
use wattwarden.Backend
use wattwarden.Backend.Moves.{Moves, LitMoves}
use wattwarden.Backend.Profiles.{apply_profile-Moves}
use wattwarden.Daemon.Ladder.{save_power, apply_logic_step}
use wattwarden.Daemon.Ladder.Safe.{apply_logic_step-Moves}
use wattwarden.Daemon.Ladder.Targets.{apply_logic_step_cable}
use wattwarden.Daemon.Runner.{
  Runner, logic, brightness_tick, new, run_loop, enforce_charge_limit, apply_brightness_step,
  target_brightness, base_brightness, level_delta,
}
use wattwarden.Daemon.Runner.OptIn.{default_off, run_loop_idle}
use wattwarden.Daemon.Runner.Charge.{enforce_charge_limit_settles, enforce_charge_limit_reasserts}
use wattwarden.Daemon.Runner.Brightness.{apply_brightness_step_settles}
use wattwarden.Daemon.Health.{Pass, passes, silent}
use wattwarden.Daemon.Health.Spaced.{Spaced, times_of, passes-Spaced}
use wattwarden.Tests.Laptop.{laptop, backend, deaf, deaf_keeps, milli, enabled}
use wattwarden.Tests.Hardware.{node, laptop-nodes, laptop_kept, laptop_set}

apply_profile-Moves_example :
    LitMoves deaf backend laptop (apply_profile deaf backend extreme laptop)
apply_profile-Moves_example =
    apply_profile-Moves deaf (deaf_keeps IsPowerLimit IsConstraint) backend extreme laptop

apply_logic_step-Moves_example :
    Moves deaf backend laptop (apply_logic_step milli deaf backend enabled laptop).0
apply_logic_step-Moves_example =
    apply_logic_step-Moves milli deaf (deaf_keeps IsPowerLimit IsConstraint) backend enabled laptop

-- With no mains supply in sight, and two batteries of which one is charging.
abbrev alone : World
alone = record laptop { tree = record laptop.tree { names = λ d. [] } }

abbrev charging : LinuxBattery
charging = record { battery = text "BAT1"; discovered = true }

abbrev draining : LinuxBattery
draining = record { battery = text "BAT0"; discovered = true }

abbrev plugged : LinuxBackend
plugged = record backend { battery = charging }

alone_charging : is_charging charging alone ≡ ok true
unfolding is_charging bat read trim
alone_charging = refl

alone-draining : is_charging draining alone ≡ ok false
unfolding is_charging bat read trim
alone-draining = refl

apply_logic_step_cable_example :
    ((apply_logic_step milli deaf (record plugged { battery = draining }) enabled alone).0
      ≡ save_power milli deaf plugged (apply_logic_step milli deaf plugged enabled alone).0)
    × ((apply_logic_step milli deaf (record plugged { battery = draining }) enabled alone).1
        ≡ record (apply_logic_step milli deaf plugged enabled alone).1 { charging = false })
apply_logic_step_cable_example =
    apply_logic_step_cable milli deaf plugged enabled alone draining refl alone_charging
      alone-draining

run_loop_idle_example :
    run_loop milli deaf backend default_config 0
      (logic default_config 0)
      (brightness_tick default_config (text "kitty"))
      (logic default_config 5 ∷ [])
      laptop
      new
    ≡ (laptop, new)
run_loop_idle_example =
    run_loop_idle milli deaf backend default_config 0 (logic default_config 0)
      (brightness_tick default_config (text "kitty")) (logic default_config 5 ∷ []) laptop new
      default_off (default_off, (default_off, (default_off, tt)))

abbrev limited : Config
limited = record default_config { battery_charge_limit = some 80 }

enforce_charge_limit_settles_example :
    enforce_charge_limit
      (linux_threshold deaf backend.threshold)
      limited
      9
      (enforce_charge_limit (linux_threshold deaf backend.threshold) limited 4 laptop new).0
      new
    ≡ ((enforce_charge_limit (linux_threshold deaf backend.threshold) limited 4 laptop new).0, new)
enforce_charge_limit_settles_example =
    enforce_charge_limit_settles deaf backend.threshold node limited 80 4 9 laptop
      (enforce_charge_limit (linux_threshold deaf backend.threshold) limited 4 laptop new).0 new new
      refl (omega arith) (omega arith) laptop-nodes laptop_kept (ap (λ s. s.1) laptop_set) refl

abbrev bright : Config
bright = record default_config { auto_brightness = true }

-- What the first step leaves: the target is written, since nothing was applied before.
abbrev after_kitty : World × Runner × Option ℕ
after_kitty = apply_brightness_step deaf backend bright (text "kitty") laptop new

apply_brightness_step_settles_example :
    apply_brightness_step deaf backend bright (text "kitty") after_kitty.0 after_kitty.1
    ≡ after_kitty
unfolding Backend.with_root Backlight.with_root apply_brightness_step brightness_percent
    target_brightness base_brightness Backlight.devices contains set_brightness_percent level_delta
    run_ignored max_of read_i64 parse_i64 read trim write_best_effort
apply_brightness_step_settles_example =
    apply_brightness_step_settles deaf backend bright (text "kitty") laptop after_kitty.0 new
      after_kitty.1 after_kitty.2 refl refl

-- The limit of 80% is in force after the next tick.
enforce_charge_limit_reasserts_example :
    charge_threshold backend.threshold
      (enforce_charge_limit (linux_threshold deaf backend.threshold) limited 4 laptop new).0
    ≡ ok 80
enforce_charge_limit_reasserts_example =
    enforce_charge_limit_reasserts deaf backend.threshold node limited 80 4 laptop new refl
      (omega arith) (omega arith) laptop-nodes laptop_kept (ap (λ s. s.1) laptop_set)

abbrev watching : Config
watching = record default_config { battery_health_log = true; battery_temp_warn_c = some 45 }

abbrev hour_and_a_half : List Pass
hour_and_a_half =
    (watching, 1000, laptop) ∷ (watching, 1005, laptop) ∷ (watching, 6400, laptop) ∷ []

passes-Spaced_example :
    Spaced 3600 (times_of (passes draining hour_and_a_half silent).samples)
    × Spaced 600 (passes draining hour_and_a_half silent).warnings
passes-Spaced_example =
    passes-Spaced draining hour_and_a_half (omega arith, (omega arith, (omega arith, tt)))
