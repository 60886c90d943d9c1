-- ===== src/Cli/Dispatch/Ends.antt =====
-- What every command line comes to.
use wattwarden.Base.{Text, Option, List, refl, inl, inr, Bool-cases}
use wattwarden.Core.Float.{Float}
use wattwarden.Cli.Runtime.{CliRuntime}
use wattwarden.Cli.Behaviour.{Call, Ended, quiet}
use wattwarden.Cli.Commands.Ends.{
  daemon_command-Ended, install_command-Ended, uninstall_command-Ended, service_command-Ended,
  start_command-Ended, stop_command-Ended, status_command-Ended, health_command-Ended,
  charge_limit_command-Ended, calibrate_command-Ended, auto_brightness_command-Ended,
  brightness_command-Ended, profile_command-Ended, level_command-Ended, finish_with-Ended,
}
use wattwarden.Cli.Dispatch.{
  Surroundings, asks_for_daemon, launch, open_dashboard, Command, daemon, install_service,
  uninstall_service, service, start, stop, status, health, charge_limit, calibrate, auto_brightness,
  brightness, profile, level, show_version, help, dashboard, run_command, run, command_in,
  argument_in,
}

module _ {F S : Type 0} (float : Float F) (rt : CliRuntime F S) (env : Surroundings) where
  open_dashboard-Ended : (s : S) → Ended rt s (open_dashboard float rt env s)
  unfolding open_dashboard launch
  open_dashboard-Ended s = elim (Bool-cases (rt.is_root s)) [
    | inr user ↦ rw user (quiet refl (inr refl))
    | inl root ↦ elim (Bool-cases (asks_for_daemon env.daemon_variable)) [
      | inl asked ↦
          rw (root, asked) (search (finish_with-Ended float rt s Call.dashboard_as_daemon))
      | inr unasked ↦ rw (root, unasked) (search (finish_with-Ended float rt s Call.dashboard))
    ]
  ]

  run_command-Ended :
      (command : Command) (arg : Option Text) (s : S)
      → Ended rt s (run_command float rt env command arg s)
  unfolding run_command
  run_command-Ended daemon arg s = daemon_command-Ended float rt s
  run_command-Ended install_service arg s = install_command-Ended float rt s
  run_command-Ended uninstall_service arg s = uninstall_command-Ended float rt s
  run_command-Ended service arg s = service_command-Ended float rt arg s
  run_command-Ended start arg s = start_command-Ended float rt s
  run_command-Ended stop arg s = stop_command-Ended float rt s
  run_command-Ended status arg s = status_command-Ended float rt s
  run_command-Ended health arg s = health_command-Ended float rt s
  run_command-Ended charge_limit arg s = charge_limit_command-Ended float rt arg s
  run_command-Ended calibrate arg s = calibrate_command-Ended float rt arg s
  run_command-Ended auto_brightness arg s = auto_brightness_command-Ended float rt arg s
  run_command-Ended brightness arg s = brightness_command-Ended float rt arg s
  run_command-Ended profile arg s = profile_command-Ended float rt arg s
  run_command-Ended level arg s = level_command-Ended float rt arg s
  run_command-Ended show_version arg s = quiet refl (inl refl)
  run_command-Ended help arg s = quiet refl (inl refl)
  run_command-Ended dashboard arg s = open_dashboard-Ended s

  -- Whatever the command line, the dispatcher makes at most one call that changes the system. That
  -- call is the storing of the auto-brightness flag, with exit code 0; or a call made as root, with
  -- exit code 0 when it went through and 1 when it failed, where a charge limit that is set lies in
  -- 55 to 100 and a brightness in 1 to 100 (opening the dashboard first brings the installed binary
  -- up to date); or, without privileges, the attempt to run the same command with them, with the
  -- exit code of that run, or 1 when nothing could run it. Otherwise the state is as it was and the
  -- exit code is 0 or 1.
  pub run-Ended : (args : List Text) (s : S) → Ended rt s (run float rt env args s)
  unfolding run
  run-Ended args s = run_command-Ended (command_in args) (argument_in args) s
