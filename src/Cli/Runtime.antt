-- ===== src/Cli/Runtime.antt =====
-- crates/wattwarden-cli/src/cli.rs: the side effects that the dispatcher needs, over a state `S` that
-- the calls read and change, and how a command ends.
use wattwarden.Base.{ℕ, Text, Bool, Option, List, [], ◌∷◌, ◌++◌, ℤ, pos}
use wattwarden.Core.Config.{PowerProfile, AutoExtremeLevel}
use wattwarden.Core.BatteryHealth.{BatteryHealth}

-- `Result<T, String>`
pub data Fallible (A : Type 0) : Type 0 where
  done : A → Fallible A
  failed : Text → Fallible A

abbrev pub Tried : Type 0
Tried = Fallible (Unit {0})

pub record HealthReport (F : Type 0) : Type 0 where
  pub present : Bool
  pub health : BatteryHealth F
  pub capacity : ℕ
  pub charging : Bool
  pub configured_limit : Option ℕ
  pub active_threshold : Option ℕ
  pub time_remaining : Text

pub record CliRuntime (F S : Type 0) : Type 0 where
  pub is_root : S → Bool
  pub daemon_active : S → Bool
  pub auto_brightness : S → Bool
  pub set_auto_brightness : Bool → S → S
  pub sync_installed_binary : S → S
  pub start_background_daemon : S → S × Tried
  pub stop_background_daemon : S → S
  pub install_service : S → S × Tried
  pub uninstall_service : S → S × Tried
  pub run_daemon : S → S × Tried
  pub launch_dashboard : S → S × Tried
  pub health_report : S → Fallible (HealthReport F)
  pub set_charge_limit : Option ℕ → S → S × Tried
  pub calibrate_start : S → S × Fallible Text
  pub calibrate_status : S → S × Fallible Text
  pub calibrate_finish : S → S × Fallible Text
  pub set_profile : Option PowerProfile → S → S × Tried
  pub set_auto_extreme_level : AutoExtremeLevel → S → S × Tried
  pub set_brightness_percent : ℕ → S → S × Tried
  -- The exit code of the same command, run again with privileges; `none` when nothing could run it.
  pub elevate : S → S × Option ℤ

-- How a command ends: the state, the exit code and what it has written.
abbrev pub Exit : Type 0 → Type 0
Exit S = S × ℤ × List Text

module _ {S : Type 0} where
  abbrev pub succeed : List Text → S → Exit S
  succeed lines s = (s, pos 0, lines)

  abbrev pub refuse : Text → S → Exit S
  refuse line s = (s, pos 1, line ∷ [])

  -- The lines of a success, or the error behind its prefix.
  unfoldable pub finish_with : Text → List Text → S × Tried → Exit S
  finish_with prefix lines (s, done u) = succeed lines s
  finish_with prefix lines (s, failed e) = refuse (prefix ++ e) s

  -- The message of a call, or its error.
  unfoldable pub finish_said : Text → S × Fallible Text → Exit S
  finish_said prefix (s, done message) = succeed (message ∷ []) s
  finish_said prefix (s, failed e) = refuse (prefix ++ e) s
