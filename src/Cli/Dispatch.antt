-- ===== src/Cli/Dispatch.antt =====
-- crates/wattwarden-cli/src/cli.rs: the dispatcher `run`. The environment variable that it reads and
-- the version of the package are arguments.
pub mod Ends
use wattwarden.Base.{
  Text, text, text_eq, Bool, true, false, ◌||◌, Option, none, some, List, [], ◌∷◌, ◌++◌,
  if◌then◌else◌, any,
}
use wattwarden.Core.Float.{Float}
use wattwarden.Cli.Runtime.{CliRuntime, Exit, succeed, refuse, finish_with}
use wattwarden.Cli.Report.{help_lines}
use wattwarden.Cli.Commands.{
  daemon_command, install_command, uninstall_command, service_command, start_command, stop_command,
  status_command, health_command, charge_limit_command, calibrate_command, auto_brightness_command,
  brightness_command, profile_command, level_command,
}

pub record Surroundings : Type 0 where
  pub daemon_variable : Option Text
  pub version : Text

-- The arms of the `match`; `dashboard` is the arm that falls through.
pub data Command : Type 0 where
  daemon install_service uninstall_service service start stop status health : Command
  charge_limit calibrate auto_brightness brightness profile level : Command
  show_version help dashboard : Command

abbrev spelled : Text → Text → Text → Bool
spelled cmd long short = text_eq cmd long || text_eq cmd short

unfoldable pub command_of : Text → Command
command_of cmd =
    if spelled cmd (text "--daemon") (text "daemon")
    then daemon
    else if spelled cmd (text "--install-service") (text "install-service")
    then install_service
    else if spelled cmd (text "--uninstall-service") (text "uninstall-service")
    then uninstall_service
    else if text_eq cmd (text "service")
    then service
    else if spelled cmd (text "--start") (text "start")
    then start
    else if spelled cmd (text "--stop") (text "stop")
    then stop
    else if spelled cmd (text "--status") (text "status")
    then status
    else if spelled cmd (text "--health") (text "health")
    then health
    else if spelled cmd (text "--charge-limit") (text "charge-limit")
    then charge_limit
    else if spelled cmd (text "--calibrate") (text "calibrate")
    then calibrate
    else if text_eq cmd (text "--brightness")
    then auto_brightness
    else if text_eq cmd (text "brightness")
    then brightness
    else if spelled cmd (text "profile") (text "--profile")
    then profile
    else if spelled cmd (text "level") (text "--level")
    then level
    else if spelled cmd (text "--version") (text "-v") || text_eq cmd (text "version")
    then show_version
    else if spelled cmd (text "--help") (text "-h") || text_eq cmd (text "help")
    then help
    else dashboard

-- `args.get(1)`
command_in : List Text → Command
unfolding command_of
command_in (exe ∷ cmd ∷ rest) = command_of cmd
command_in (exe ∷ []) = dashboard
command_in [] = dashboard

-- `args.get(2)`
argument_in : List Text → Option Text
argument_in (exe ∷ cmd ∷ arg ∷ rest) = some arg
argument_in (exe ∷ cmd ∷ []) = none
argument_in (exe ∷ []) = none
argument_in [] = none

-- `env::var("WATTWARDEN_DAEMON").as_deref() == Ok("1")`
asks_for_daemon : Option Text → Bool
asks_for_daemon none = false
asks_for_daemon (some value) = text_eq value (text "1")

module _ {F S : Type 0} (float : Float F) (rt : CliRuntime F S) (env : Surroundings) where
  open rt use {is_root, sync_installed_binary, run_daemon, launch_dashboard}

  launch : S → Exit S
  unfolding asks_for_daemon
  launch s =
      if asks_for_daemon env.daemon_variable
      then finish_with (text "Error running daemon: ") [] (run_daemon s)
      else finish_with (text "Error: ") [] (launch_dashboard s)

  -- What is left when no command has returned.
  open_dashboard : S → Exit S
  unfolding launch
  open_dashboard s =
      if is_root s
      then launch (sync_installed_binary s)
      else refuse
          (text
            "Error: You must run this program with administrator/root privileges to change system power settings.")
          s

  unfoldable pub run_command : Command → Option Text → S → Exit S
  unfolding open_dashboard
  run_command daemon arg = daemon_command float rt
  run_command install_service arg = install_command float rt
  run_command uninstall_service arg = uninstall_command float rt
  run_command service arg = service_command float rt arg
  run_command start arg = start_command float rt
  run_command stop arg = stop_command float rt
  run_command status arg = status_command float rt
  run_command health arg = health_command float rt
  run_command charge_limit arg = charge_limit_command float rt arg
  run_command calibrate arg = calibrate_command float rt arg
  run_command auto_brightness arg = auto_brightness_command float rt arg
  run_command brightness arg = brightness_command float rt arg
  run_command profile arg = profile_command float rt arg
  run_command level arg = level_command float rt arg
  run_command show_version arg = succeed ((text "WattWarden v" ++ env.version) ∷ [])
  run_command help arg = succeed help_lines
  run_command dashboard arg = open_dashboard

  unfoldable pub run : List Text → S → Exit S
  unfolding run_command command_in argument_in
  run args s = run_command (command_in args) (argument_in args) s
