-- ===== src/Tests/Machine.antt =====
-- The program's runtime on the laptop, whose ceiling is 80 already.
use wattwarden.Base.{
  ℕ, Text, text, true, false, Option, none, some, List, [], ◌∷◌, ◌≡◌, ◌↔◌, refl, pos, arith,
  to_string,
}
use wattwarden.Core.Config.{Config}
use wattwarden.Core.Calibrate.{CalibrationState}
use wattwarden.Rapl.Writes.{IsPowerLimit, IsConstraint}
use wattwarden.Backend.{with_root}
use wattwarden.Threshold.Nodes.{nodes}
use wattwarden.Threshold.Set.Sticks.{TookValue}
use wattwarden.Escalation.{code, not_started, Processes, rerun_elevated}
use wattwarden.Escalation.Silent.{with_terminal, rerun_elevated_silent}
use wattwarden.Cli.Runtime.{done}
use wattwarden.Cli.Dispatch.{Surroundings, run}
use wattwarden.Cli.Real.{System, real_runtime}
use wattwarden.Cli.Real.Limit.{limited, run_charge_limit}
use wattwarden.Cli.Real.Commanded.{Commanded, run-Commanded}
use wattwarden.Tests.Laptop.{laptop, deaf, deaf_keeps, milli, enabled}

record Files : Type 0 where
  config : Config
  begun : Option CalibrationState

abbrev files : Files
files = record { config = enabled; begun = none }

-- `sudo` is there, and refuses.
abbrev processes : {M : Type 0} → Processes M
processes = record {
  has_program = λ name m. true;
  is_terminal = λ m. false;
  run_quiet = λ argv m. (m, code (pos 1));
  run_here = λ argv m. (m, not_started);
}

abbrev machine : System Files
machine = record {
  is_root = λ f. true;
  pid_is_running = λ f. false;
  terminate = λ f. f;
  unit_is_active = λ f. false;
  load = λ f. f.config;
  save = λ c f. (record f { config = c }, done tt);
  calibration = record {
    load = λ f. f.begun;
    save = λ c f. (record f { begun = some c }, true);
    clear = λ f. record f { begun = none };
  };
  systemctl = λ args f. f;
  has_unit = λ f. false;
  write_unit = λ t f. (f, done tt);
  remove_unit = λ f. f;
  sync_installed_binary = λ f. f;
  sleep = λ f. f;
  spawn_detached_daemon = λ f. (f, done tt);
  run_daemon = λ m. (m, done tt);
  launch_dashboard = λ m. (m, done tt);
  processes = processes;
  exe = some (text "wattwarden");
  arguments = [];
  error_text = λ e. text "error";
  outcome_text = λ o. text "calibration";
}

abbrev surroundings : Surroundings
surroundings = record { daemon_variable = none; version = text "2.0.0" }

abbrev limit_80 : List Text
limit_80 = text "wattwarden" ∷ text "charge-limit" ∷ to_string 80 ∷ []

run_charge_limit_example :
    ((run milli (real_runtime milli machine deaf) surroundings limit_80 (laptop, files)).1 ≡ pos 0)
    ↔ (((machine.save (limited milli machine deaf 80 files) files).1 ≡ done tt)
        × TookValue deaf 80 (nodes (with_root laptop).threshold laptop) laptop)
run_charge_limit_example =
    run_charge_limit milli machine deaf surroundings (text "wattwarden") 80 laptop files
      (omega arith) (omega arith) refl

abbrev profile_extreme : List Text
profile_extreme = text "wattwarden" ∷ text "profile" ∷ text "extreme" ∷ []

run-Commanded_example :
    Commanded machine deaf laptop files
      (run milli (real_runtime milli machine deaf) surroundings profile_extreme (laptop, files)).0.0
run-Commanded_example =
    run-Commanded milli machine deaf (deaf_keeps IsPowerLimit IsConstraint) surroundings
      profile_extreme laptop files

rerun_elevated_silent_example :
    rerun_elevated
      (with_terminal (λ argv m. (m, code (pos 0))) (λ m. true) (processes {M = ℕ}))
      (text "wattwarden" ∷ [])
      false
      7
    ≡ rerun_elevated (processes {M = ℕ}) (text "wattwarden" ∷ []) false 7
rerun_elevated_silent_example =
    rerun_elevated_silent (processes {M = ℕ}) (λ argv m. (m, code (pos 0))) (λ m. true)
      (text "wattwarden" ∷ []) 7
