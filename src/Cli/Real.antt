-- ===== src/Cli/Real.antt =====
-- crates/wattwarden-cli/src/main.rs and service.rs: the runtime of the program, over the hardware's
-- tree and a state `H` of files and processes. The daemon and the dashboard that a command starts are
-- parameters here; Daemon and Tui are about them.
pub mod Limit
pub mod Commanded
use wattwarden.Base.{
  ℕ, zero, suc, Text, text, Bool, true, false, ◌||◌, not, Option, none, some, List, [], ◌∷◌, ◌++◌,
  clamp, if◌then◌else◌, ℤ,
}
use wattwarden.Core.Float.{Float}
use wattwarden.Core.Error.{WattWardenError, Result, ok, err, Done, unwrap_or}
use wattwarden.Core.Config.{Config, PowerProfile, normal, AutoExtremeLevel}
use wattwarden.Core.Calibrate.{StateFile, Outcome, reported, refused, start, status, finish}
use wattwarden.Core.BatteryHealth.{BatteryHealth, default_health}
use wattwarden.Sysfs.{World, Os}
use wattwarden.Battery.{battery_percentage, is_charging, is_stationary, linux_battery}
use wattwarden.Battery.Power.{time_remaining}
use wattwarden.Battery.Health.{health}
use wattwarden.Threshold.Set.{
  supports_threshold, charge_threshold, set_charge_threshold, linux_threshold,
}
use wattwarden.Backlight.{LinuxBacklight, set_brightness_percent}
use wattwarden.Backend.{LinuxBackend, with_root, apply_profile}
use wattwarden.Escalation.{Escalation, ran, Processes, rerun_elevated}
use wattwarden.Cli.Runtime.{Fallible, done, failed, Tried, HealthReport, CliRuntime}

pub record System (H : Type 0) : Type 0 where
  pub is_root : H → Bool
  -- `PidManager::is_running`, the signal to the process whose number the file holds, and whether
  -- `systemctl is-active` answers `active`
  pub pid_is_running : H → Bool
  pub terminate : H → H
  pub unit_is_active : H → Bool
  -- `Config::load_or_default(None)` and `Config::save(None)`
  pub load : H → Config
  pub save : Config → H → H × Tried
  pub calibration : StateFile H
  -- `systemctl` with the given words
  pub systemctl : List Text → H → H
  -- The unit's file
  pub has_unit : H → Bool
  pub write_unit : Text → H → H × Tried
  pub remove_unit : H → H
  pub sync_installed_binary : H → H
  -- A hundred milliseconds
  pub sleep : H → H
  pub spawn_detached_daemon : H → H × Tried
  -- The daemon in the foreground, and the dashboard
  pub run_daemon : World × H → (World × H) × Tried
  pub launch_dashboard : World × H → (World × H) × Tried
  pub processes : Processes (World × H)
  -- `current_exe`, where it is known, and the arguments of this process after the first
  pub exe : Option Text
  pub arguments : List Text
  -- The texts of an error and of what a calibration command says
  pub error_text : WattWardenError → Text
  pub outcome_text : Outcome → Text

-- The systemd unit.
unfoldable pub systemd_unit_lines : List Text
systemd_unit_lines =
    text "[Unit]"
    ∷ text "Description=WattWarden Auto Power and Hardware Management Daemon"
    ∷ text "After=multi-user.target"
    ∷ text "StartLimitIntervalSec=0"
    ∷ []
    ∷ text "[Service]"
    ∷ text "Type=simple"
    ∷ text "ExecStart=/usr/local/bin/wattwarden --daemon"
    ∷ text "Restart=always"
    ∷ text "RestartSec=3"
    ∷ text "KillMode=process"
    ∷ []
    ∷ text "[Install]"
    ∷ text "WantedBy=multi-user.target"
    ∷ []

concat_lines : List Text → Text
concat_lines [] = []
concat_lines (line ∷ lines) = line ++ (10 ∷ concat_lines lines)

unfoldable pub systemd_unit_text : Text
unfolding concat_lines systemd_unit_lines
systemd_unit_text = concat_lines systemd_unit_lines

abbrev unit : Text
unit = text "wattwarden.service"

-- `unwrap_or(PowerProfile::Normal)`
abbrev profile_or_normal : Option PowerProfile → PowerProfile
profile_or_normal none = normal
profile_or_normal (some p) = p

-- `.ok()`
abbrev ok_of : Result ℕ → Option ℕ
ok_of (ok n) = some n
ok_of (err e) = none

abbrev exit_of : Escalation → Option ℤ
exit_of (ran code) = some code
exit_of escalation = none

-- `unwrap_or_default`
abbrev health_or_default : {F : Type 0} → Result (BatteryHealth F) → BatteryHealth F
health_or_default (ok found) = found
health_or_default (err e) = default_health

module _ {H : Type 0} (sys : System H) where
  open sys use {
    pid_is_running, terminate, unit_is_active, load, save, systemctl, has_unit, write_unit,
    remove_unit, sync_installed_binary, sleep, spawn_detached_daemon,
  }

  unfoldable pub daemon_active : H → Bool
  daemon_active h = pid_is_running h || unit_is_active h

  -- Whether the unit's daemon is there within the given number of rounds.
  await_start : ℕ → H → H × Bool
  unfolding daemon_active
  await_start zero h = (h, daemon_active h)
  await_start (suc rounds) h =
      let later = await_start rounds (sleep h) in if daemon_active h then (h, true) else later

  after_await : H × Bool → H × Tried
  after_await (h, true) = (h, done tt)
  after_await (h, false) = spawn_detached_daemon h

  unfoldable pub start_background_daemon : H → H × Tried
  unfolding await_start after_await
  start_background_daemon h =
      let synced = sync_installed_binary h in
      let saved = (save (record (load synced) { auto_extreme_enabled = true }) synced).0 in
      if has_unit saved
      then after_await (
          await_start 20 (
            systemctl (text "restart" ∷ unit ∷ [])
              (systemctl (text "reset-failed" ∷ unit ∷ []) saved)))
      else after_await (await_start 0 saved)

  -- Until the instance lock is free, or the rounds are over.
  await_stop : ℕ → H → H
  await_stop zero h = h
  await_stop (suc rounds) h =
      let later = await_stop rounds (sleep h) in if pid_is_running h then later else h

  unfoldable pub stop_background_daemon : H → H
  unfolding await_stop
  stop_background_daemon h =
      let saved = (save (record (load h) { auto_extreme_enabled = false }) h).0 in
      await_stop 30 (terminate (systemctl (text "stop" ∷ unit ∷ []) saved))

  after_unit : H × Tried → H × Tried
  after_unit (h, failed e) = (h, failed e)
  after_unit (h, done u) =
      let reset =
        systemctl (text "reset-failed" ∷ unit ∷ []) (systemctl (text "daemon-reload" ∷ []) h) in
      let enabled = systemctl (text "enable" ∷ text "--now" ∷ unit ∷ []) reset in
      (systemctl (text "restart" ∷ unit ∷ []) enabled, done tt)

  unfoldable pub install_service : H → H × Tried
  unfolding after_unit systemd_unit_text
  install_service h = after_unit (write_unit systemd_unit_text (sync_installed_binary h))

  unfoldable pub uninstall_service : H → H × Tried
  uninstall_service h =
      let disabled = systemctl (text "disable" ∷ text "--now" ∷ unit ∷ []) h in
      (systemctl (text "daemon-reload" ∷ []) (remove_unit disabled), done tt)

  said : Outcome → Fallible Text
  said (reported r) = done (sys.outcome_text (reported r))
  said (refused r) = failed (sys.outcome_text (refused r))

module _ {F H : Type 0} (float : Float F) (sys : System H) (os : Os) where
  open sys use {load, save, calibration, error_text}

  -- The backend that a command builds for itself; probing does not fail.
  abbrev pub build_backend : World × H → LinuxBackend
  build_backend (w, h) = with_root w

  -- The effect of a call on the files and processes alone.
  abbrev pub beside : World → H × Tried → (World × H) × Tried
  beside w (h, r) = ((w, h), r)

  tried : Done → Tried
  tried (ok u) = done tt
  tried (err e) = failed (error_text e)

  active_threshold : LinuxBackend → World → Option ℕ
  active_threshold b w =
      if supports_threshold b.threshold w then ok_of (charge_threshold b.threshold w) else none

  report : LinuxBackend → BatteryHealth F → World × H → HealthReport F
  unfolding active_threshold
  report b found (w, h) = record {
    present = found.present || not (is_stationary b.battery);
    health = found;
    capacity = unwrap_or 0 (battery_percentage b.battery w);
    charging = unwrap_or false (is_charging b.battery w);
    configured_limit = (load h).battery_charge_limit;
    active_threshold = active_threshold b w;
    time_remaining = unwrap_or (text "Calculating...") (time_remaining float b.battery w);
  }

  unfoldable pub health_report : World × H → Fallible (HealthReport F)
  unfolding report
  health_report m =
      let b = build_backend m in done (report b (health_or_default (health float b.battery m.0)) m)

  applied : H → World × Done → (World × H) × Tried
  unfolding tried
  applied h (w, r) = ((w, h), tried r)

  -- The ceiling on the hardware, behind the stored one.
  apply_ceiling : Option ℕ → World → H × Tried → (World × H) × Tried
  unfolding applied
  apply_ceiling limit w (h, failed e) = ((w, h), failed e)
  apply_ceiling none w (h, done u) = ((w, h), done tt)
  apply_ceiling (some n) w (h, done u) =
      let t = (with_root w).threshold in
      if supports_threshold t w
      then applied h (set_charge_threshold os t n w)
      else ((w, h), failed (text "hardware does not expose a charge threshold"))

  unfoldable pub set_charge_limit : Option ℕ → World × H → (World × H) × Tried
  unfolding apply_ceiling
  set_charge_limit limit (w, h) =
      apply_ceiling limit w (save (record (load h) { battery_charge_limit = limit }) h)

  said_with : World × H × Outcome → (World × H) × Fallible Text
  unfolding said
  said_with (w, h, outcome) = ((w, h), said sys outcome)

  said_beside : World → H × Outcome → (World × H) × Fallible Text
  unfolding said
  said_beside w (h, outcome) = ((w, h), said sys outcome)

  unfoldable pub calibrate_start : World × H → (World × H) × Fallible Text
  unfolding said_with
  calibrate_start (w, h) =
      said_with (start (linux_threshold os (with_root w).threshold) calibration w h)

  unfoldable pub calibrate_status : World × H → (World × H) × Fallible Text
  unfolding said_beside
  calibrate_status (w, h) =
      said_beside w (status (linux_battery (with_root w).battery) calibration w h)

  unfoldable pub calibrate_finish : World × H → (World × H) × Fallible Text
  unfolding said_with
  calibrate_finish (w, h) =
      said_with (finish (linux_threshold os (with_root w).threshold) calibration w h)

  unfoldable pub set_profile : Option PowerProfile → World × H → (World × H) × Tried
  set_profile profile (w, h) =
      beside (apply_profile os (with_root w) (profile_or_normal profile) w)
        (save (record (load h) { profile = profile }) h)

  unfoldable pub set_auto_extreme_level : AutoExtremeLevel → World × H → (World × H) × Tried
  set_auto_extreme_level level (w, h) =
      beside w (save (record (load h) { auto_extreme_level = level }) h)

  dim : Option LinuxBacklight → ℕ → World × H → (World × H) × Tried
  dim none percent m = (m, failed (text "no backlight exposed on this machine"))
  dim (some device) percent (w, h) = (
    (
      set_brightness_percent os (clamp percent 1 100) w,
      (save (record (load h) { auto_brightness = false }) h).0,
    ),
    done tt,
  )

  unfoldable pub set_brightness : ℕ → World × H → (World × H) × Tried
  unfolding dim
  set_brightness percent (w, h) = dim (with_root w).backlight percent (w, h)

  -- The same command line, run again with privileges, where the terminal may be used to ask.
  elevated : (World × H) × Escalation → (World × H) × Option ℤ
  elevated (m, e) = (m, exit_of e)

  elevate_as : Option Text → World × H → (World × H) × Option ℤ
  unfolding elevated
  elevate_as none m = (m, none)
  elevate_as (some exe) m = elevated (rerun_elevated sys.processes (exe ∷ sys.arguments) true m)

  unfoldable pub elevate : World × H → (World × H) × Option ℤ
  unfolding elevate_as
  elevate m = elevate_as sys.exe m

  -- `RealRuntime`
  abbrev pub real_runtime : CliRuntime F (World × H)
  real_runtime = record {
    is_root = λ m. sys.is_root m.1;
    daemon_active = λ m. daemon_active sys m.1;
    auto_brightness = λ m. (load m.1).auto_brightness;
    set_auto_brightness = λ on m. (m.0, (save (record (load m.1) { auto_brightness = on }) m.1).0);
    sync_installed_binary = λ m. (m.0, sys.sync_installed_binary m.1);
    start_background_daemon = λ m. beside m.0 (start_background_daemon sys m.1);
    stop_background_daemon = λ m. (m.0, stop_background_daemon sys m.1);
    install_service = λ m. beside m.0 (install_service sys m.1);
    uninstall_service = λ m. beside m.0 (uninstall_service sys m.1);
    run_daemon = sys.run_daemon;
    launch_dashboard = sys.launch_dashboard;
    health_report = health_report;
    set_charge_limit = set_charge_limit;
    calibrate_start = calibrate_start;
    calibrate_status = calibrate_status;
    calibrate_finish = calibrate_finish;
    set_profile = set_profile;
    set_auto_extreme_level = set_auto_extreme_level;
    set_brightness_percent = set_brightness;
    elevate = elevate;
  }
