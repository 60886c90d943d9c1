-- ===== src/Tests/Console.antt =====
-- The command line at a runtime that remembers what it was told.
use wattwarden.Base.{
  ℕ, Text, text, Bool, true, false, Option, none, some, List, [], ◌∷◌, ◌≡◌, refl, pos,
  parse_unsigned, to_string,
}
use wattwarden.Core.BatteryHealth.{charge_uah}
use wattwarden.Cli.Runtime.{done, failed, HealthReport, CliRuntime, finish_with}
use wattwarden.Cli.Behaviour.{Ended}
use wattwarden.Cli.Dispatch.{Surroundings, run}
use wattwarden.Cli.Commands.{charge_limit_command}
use wattwarden.Cli.Dispatch.Ends.{run-Ended}
use wattwarden.Tests.Laptop.{milli}

record Memory : Type 0 where
  root : Bool
  flag : Bool
  limit : Option ℕ

abbrev user : Memory
user = record { root = false; flag = true; limit = none }

abbrev root : Memory
root = record user { root = true }

abbrev pack : HealthReport ℕ
pack = record {
  present = true;
  health = record {
    present = true;
    full = some 2068000;
    design = some 3684000;
    unit = some charge_uah;
    cycle_count = none;
    temp_c = none;
    model = some (text "DELL 5471");
    manufacturer = none;
    serial = none;
  };
  capacity = 57;
  charging = false;
  configured_limit = none;
  active_threshold = some 80;
  time_remaining = text "2h 05m";
}

-- No escalator is there.
abbrev memory : CliRuntime ℕ Memory
memory = record {
  is_root = λ m. m.root;
  daemon_active = λ m. false;
  auto_brightness = λ m. m.flag;
  set_auto_brightness = λ b m. record m { flag = b };
  sync_installed_binary = λ m. m;
  start_background_daemon = λ m. (m, done tt);
  stop_background_daemon = λ m. m;
  install_service = λ m. (m, done tt);
  uninstall_service = λ m. (m, done tt);
  run_daemon = λ m. (m, done tt);
  launch_dashboard = λ m. (m, failed (text "no terminal"));
  health_report = λ m. done pack;
  set_charge_limit = λ n m. (record m { limit = n }, done tt);
  calibrate_start = λ m. (m, done (text "started"));
  calibrate_status = λ m. (m, done (text "charging"));
  calibrate_finish = λ m. (m, failed (text "no calibration"));
  set_profile = λ p m. (m, done tt);
  set_auto_extreme_level = λ l m. (m, done tt);
  set_brightness_percent = λ n m. (m, done tt);
  elevate = λ m. (m, none);
}

abbrev surroundings : Surroundings
surroundings = record { daemon_variable = none; version = text "2.0.0" }

abbrev limit_80 : List Text
limit_80 = text "wattwarden" ∷ text "charge-limit" ∷ text "80" ∷ []

run-Ended_example : Ended memory root (run milli memory surroundings limit_80 root)
run-Ended_example = run-Ended milli memory surroundings limit_80 root

limit_80_runs :
    run milli memory surroundings limit_80 root
    ≡ (record root { limit = some 80 }, pos 0, text "Charge limit set to: 80%" ∷ [])
unfolding run charge_limit_command parse_unsigned finish_with to_string
limit_80_runs = refl
