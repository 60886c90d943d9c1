-- ===== src/Cli/Commands.antt =====
-- crates/wattwarden-cli/src/cli.rs: the commands, arm by arm of the dispatcher. An argument is
-- `args.get(2)`.
pub mod Ends
pub mod Limit
use wattwarden.Base.{
  ℕ, Text, text, text_eq, Bool, true, false, ◌&&◌, ◌||◌, not, Option, none, some, List, [], ◌∷◌,
  ◌++◌, leb, if◌then◌else◌, ℤ, pos, to_string, parse_unsigned, to_lowercase,
}
use wattwarden.Core.Float.{Float}
use wattwarden.Core.Config.{
  PowerProfile, performance, extreme, AutoExtremeLevel, low, medium, high, display_level,
}
use wattwarden.Cli.Runtime.{
  Fallible, done, failed, Tried, HealthReport, CliRuntime, Exit, succeed, refuse, finish_with,
  finish_said,
}
use wattwarden.Cli.Report.{help_lines, render_health, render_status_battery}

-- `{}` of a `bool`
display_bool : Bool → Text
display_bool true = text "true"
display_bool false = text "false"

-- `(lo..=hi).contains(&n)` on a text that is a `u8`.
abbrev pub within : ℕ → ℕ → Option ℕ → Option ℕ
within lo hi none = none
within lo hi (some n) = if leb lo n && leb n hi then some n else none

unfoldable pub parse_within : ℕ → ℕ → Text → Option ℕ
parse_within lo hi arg = within lo hi (parse_unsigned 256 arg)

query_text : Option ℕ → Option ℕ → Text
query_text (some c) (some a) =
    text "configured "
    ++ (to_string c ++ (text "% (active threshold " ++ (to_string a ++ text "%)")))
query_text (some c) none = text "configured " ++ (to_string c ++ text "%")
query_text none (some a) = text "not set (active threshold " ++ (to_string a ++ text "%)")
query_text none none = text "not set"

-- `unwrap_or_default`
abbrev named : Option Text → Text
named none = []
named (some arg) = arg

level_named : Text → Option AutoExtremeLevel
level_named arg =
    if text_eq arg (text "low")
    then some low
    else if text_eq arg (text "medium")
    then some medium
    else if text_eq arg (text "high")
    then some high
    else none

level_of_argument : Option Text → Option AutoExtremeLevel
unfolding level_named
level_of_argument none = none
level_of_argument (some arg) = level_named arg

module _ {F S : Type 0} (float : Float F) (rt : CliRuntime F S) where
  open rt use {
    is_root, daemon_active, auto_brightness, set_auto_brightness, start_background_daemon,
    stop_background_daemon, install_service, uninstall_service, run_daemon, health_report,
    set_charge_limit, calibrate_start, calibrate_status, calibrate_finish, set_profile,
    set_auto_extreme_level, set_brightness_percent, elevate,
  }

  -- A command that is refused without privileges.
  as_root : Text → (S → Exit S) → S → Exit S
  as_root refusal command s = if is_root s then command s else refuse refusal s

  -- Where the process has no privileges, another one runs the command; nothing more happens here.
  after_elevation : Text → S × Option ℤ → Exit S
  after_elevation refusal (s, some code) = (s, code, [])
  after_elevation refusal (s, none) = refuse refusal s

  elevated : Text → (S → Exit S) → S → Exit S
  unfolding after_elevation
  elevated refusal command s = if is_root s then command s else after_elevation refusal (elevate s)

  unfoldable pub daemon_command : S → Exit S
  unfolding as_root
  daemon_command =
      as_root (text "Error: Administrator/root privileges are required to run the daemon.")
        λ s. finish_with (text "Error running daemon: ") [] (run_daemon s)

  unfoldable pub install_command : S → Exit S
  unfolding as_root
  install_command =
      as_root (text "Error: Administrator/root privileges are required to install the service.")
        λ s.
          finish_with (text "Error installing service: ")
            (text "✅ WattWarden background service installed and started successfully." ∷ [])
            (install_service s)

  unfoldable pub uninstall_command : S → Exit S
  unfolding as_root
  uninstall_command =
      as_root (text "Error: Administrator/root privileges are required to uninstall the service.")
        λ s.
          finish_with (text "Error uninstalling service: ")
            (text "✅ WattWarden background service uninstalled." ∷ []) (uninstall_service s)

  unfoldable pub service_command : Option Text → S → Exit S
  unfolding install_command uninstall_command
  service_command none s = (s, pos 1, help_lines)
  service_command (some arg) s =
      if text_eq arg (text "install")
      then install_command s
      else if text_eq arg (text "uninstall")
      then uninstall_command s
      else (s, pos 1, help_lines)

  unfoldable pub start_command : S → Exit S
  unfolding as_root
  start_command = as_root (text "Error: Administrator/root privileges are required.") λ s.
      finish_with (text "Error starting daemon: ")
        (text "⚡ WattWarden background daemon started." ∷ []) (start_background_daemon s)

  unfoldable pub stop_command : S → Exit S
  unfolding as_root
  stop_command =
      as_root (text "Error: Administrator/root privileges are required.") λ s.
        succeed (text "🛑 WattWarden background daemon stopped." ∷ []) (stop_background_daemon s)

  battery_lines : Fallible (HealthReport F) → List Text
  battery_lines (done report) = elim (render_status_battery float report) [
    | none ↦ []
    | some line ↦ line ∷ []
  ]
  battery_lines (failed e) = []

  unfoldable pub status_command : S → Exit S
  unfolding battery_lines
  status_command s =
      succeed
        ((if daemon_active s
            then text "WattWarden Daemon Status: [ACTIVE] (Running in background)"
            else text "WattWarden Daemon Status: [INACTIVE]")
          ∷ battery_lines (health_report s))
        s

  -- A report that is shown, or its error.
  show_report : (HealthReport F → Text) → Fallible (HealthReport F) → S → Exit S
  show_report show (done report) s = succeed (show report ∷ []) s
  show_report show (failed e) s = refuse (text "Error: " ++ e) s

  unfoldable pub health_command : S → Exit S
  unfolding show_report
  health_command s = show_report (render_health float) (health_report s) s

  remaining_lines : Fallible (HealthReport F) → List Text
  remaining_lines (done report) = elim report.active_threshold [
    | none ↦ []
    | some a ↦
        (text "Active threshold remains: " ++ (to_string a ++ text "% (set outside WattWarden)."))
        ∷ []
  ]
  remaining_lines (failed e) = []

  cleared : S × Tried → Exit S
  unfolding remaining_lines
  cleared (s, done u) =
      succeed
        (text "Charge limit cleared. WattWarden will not touch the charge threshold."
          ∷ remaining_lines (health_report s))
        s
  cleared (s, failed e) = refuse (text "Error clearing charge limit: " ++ e) s

  query_limit : S → Exit S
  unfolding query_text show_report
  query_limit s =
      show_report
        (λ report.
          text "Charge limit: " ++ query_text report.configured_limit report.active_threshold)
        (health_report s) s

  ensure_privileged : (S → Exit S) → S → Exit S
  unfolding elevated
  ensure_privileged =
      elevated
        (text "Error: Administrator/root privileges are required to change the charge limit.")

  set_limit : Option ℕ → S → Exit S
  unfolding ensure_privileged
  set_limit none = refuse (text "Error: charge limit must be a value between 55 and 100, or 'off'.")
  set_limit (some n) = ensure_privileged λ s.
      finish_with (text "Error setting charge limit: ")
        ((text "Charge limit set to: " ++ (to_string n ++ text "%")) ∷ [])
        (set_charge_limit (some n) s)

  unfoldable pub charge_limit_command : Option Text → S → Exit S
  unfolding query_limit cleared set_limit ensure_privileged parse_within
  charge_limit_command none s = query_limit s
  charge_limit_command (some arg) s =
      if text_eq arg (text "off")
      then ensure_privileged (λ t. cleared (set_charge_limit none t)) s
      else set_limit (parse_within 55 100 arg) s

  calibrate_phase : Option Text → S → Exit S
  calibrate_phase none s = finish_said (text "Error: ") (calibrate_start s)
  calibrate_phase (some phase) s =
      if text_eq phase (text "start")
      then finish_said (text "Error: ") (calibrate_start s)
      else if text_eq phase (text "status")
      then finish_said (text "Error: ") (calibrate_status s)
      else if text_eq phase (text "done") || text_eq phase (text "abort")
      then finish_said (text "Error: ") (calibrate_finish s)
      else refuse
          (text "Error: unknown calibrate phase '"
            ++ (phase ++ text "' (use start|status|done|abort)."))
          s

  unfoldable pub calibrate_command : Option Text → S → Exit S
  unfolding calibrate_phase elevated
  calibrate_command arg =
      elevated (text "Error: Administrator/root privileges are required to run calibration.")
        (calibrate_phase arg)

  say_auto_brightness : S → Exit S
  unfolding display_bool
  say_auto_brightness s =
      succeed ((text "Auto-brightness is currently: " ++ display_bool (auto_brightness s)) ∷ []) s

  switch_auto_brightness : Bool → S → Exit S
  unfolding display_bool
  switch_auto_brightness enabled s =
      succeed ((text "Auto-brightness set to: " ++ display_bool enabled) ∷ [])
        (set_auto_brightness enabled s)

  -- `--brightness`
  unfoldable pub auto_brightness_command : Option Text → S → Exit S
  unfolding say_auto_brightness switch_auto_brightness
  auto_brightness_command none = say_auto_brightness
  auto_brightness_command (some arg) =
      switch_auto_brightness
        (text_eq arg (text "on") || text_eq arg (text "1") || text_eq arg (text "true"))

  set_percent : Option ℕ → S → Exit S
  unfolding as_root
  set_percent none = refuse (text "Error: brightness must be 1-100, 'on' or 'off'.")
  set_percent (some n) =
      as_root (text "Error: Administrator/root privileges are required to set brightness.") λ s.
        finish_with (text "Error setting brightness: ")
          ((text "Brightness set to: " ++ (to_string n ++ text "%")) ∷ [])
          (set_brightness_percent n s)

  -- `brightness`
  unfoldable pub brightness_command : Option Text → S → Exit S
  unfolding say_auto_brightness switch_auto_brightness set_percent parse_within
  brightness_command none s = say_auto_brightness s
  brightness_command (some arg) s =
      if text_eq arg (text "on") || text_eq arg (text "off")
      then switch_auto_brightness (text_eq arg (text "on")) s
      else set_percent (parse_within 1 100 arg) s

  applied : Text → S × Tried → Exit S
  applied label =
      finish_with (text "Error setting profile: ") ((text "Power profile set to: " ++ label) ∷ [])

  choose_profile : Text → Text → S → Exit S
  unfolding applied
  choose_profile given name s =
      if text_eq name (text "performance") || text_eq name (text "perf")
      then applied (text "Performance") (set_profile (some performance) s)
      else if text_eq name (text "extreme")
      then applied (text "Extreme") (set_profile (some extreme) s)
      else if text_eq name (text "normal")
          || text_eq name (text "restore")
          || text_eq name (text "default")
      then applied (text "Normal (restored)") (set_profile none s)
      else if text_eq name (text "auto")
      then applied (text "Auto Extreme") (start_background_daemon s)
      else refuse
          (text "Error: unknown profile '"
            ++ (given ++ text "' (use normal|performance|extreme|auto)."))
          s

  unfoldable pub profile_command : Option Text → S → Exit S
  unfolding as_root choose_profile
  profile_command arg =
      as_root
        (text "Error: Administrator/root privileges are required to change system power settings.")
        (choose_profile (named arg) (to_lowercase (named arg)))

  choose_level : Option AutoExtremeLevel → S → Exit S
  choose_level none s = refuse (text "Error: level must be low, medium or high.") s
  choose_level (some level) s =
      finish_with (text "Error setting level: ")
        ((text "Auto Extreme level set to: " ++ display_level level) ∷ [])
        (set_auto_extreme_level level s)

  unfoldable pub level_command : Option Text → S → Exit S
  unfolding as_root choose_level level_of_argument
  level_command arg =
      as_root
        (text "Error: Administrator/root privileges are required to change the Auto Extreme level.")
        (choose_level (level_of_argument arg))
