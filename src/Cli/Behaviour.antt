-- ===== src/Cli/Behaviour.antt =====
-- crates/wattwarden-cli/src/cli.rs: what a command promises. A command makes at most one call that
-- changes the system, and its exit code says whether the call went through.
use wattwarden.Base.{ℕ, Bool, true, false, ◌≤◌, ◌≡◌, ◌⊎◌, Option, none, some, ℤ, pos}
use wattwarden.Core.Config.{PowerProfile, AutoExtremeLevel}
use wattwarden.Cli.Runtime.{Fallible, done, failed, CliRuntime, Exit}

-- The calls that need privileges.
pub data Call : Type 0 where
  daemon install uninstall start stop : Call
  limit : Option ℕ → Call
  calibrate_start calibrate_status calibrate_finish : Call
  profile : Option PowerProfile → Call
  level : AutoExtremeLevel → Call
  brightness : ℕ → Call
  dashboard dashboard_as_daemon : Call

abbrev pub IsInRange : ℕ → ℕ → ℕ → Type 0
IsInRange lo hi n = (lo ≤ n) × (n ≤ hi)

abbrev pub IsAllowed : Call → Type 0
IsAllowed (limit (some n)) = IsInRange 55 100 n
IsAllowed (brightness n) = IsInRange 1 100 n
IsAllowed call = Unit {0}

-- Whether a call went through.
abbrev pub outcome : {S A : Type 0} → S × Fallible A → S × Bool
outcome (s, done a) = (s, true)
outcome (s, failed e) = (s, false)

module _ {F S : Type 0} (rt : CliRuntime F S) where
  abbrev pub perform : Call → S → S × Bool
  perform daemon s = outcome (rt.run_daemon s)
  perform install s = outcome (rt.install_service s)
  perform uninstall s = outcome (rt.uninstall_service s)
  perform start s = outcome (rt.start_background_daemon s)
  perform stop s = (rt.stop_background_daemon s, true)
  perform (limit n) s = outcome (rt.set_charge_limit n s)
  perform calibrate_start s = outcome (rt.calibrate_start s)
  perform calibrate_status s = outcome (rt.calibrate_status s)
  perform calibrate_finish s = outcome (rt.calibrate_finish s)
  perform (profile p) s = outcome (rt.set_profile p s)
  perform (level l) s = outcome (rt.set_auto_extreme_level l s)
  perform (brightness n) s = outcome (rt.set_brightness_percent n s)
  perform dashboard s = outcome (rt.launch_dashboard (rt.sync_installed_binary s))
  perform dashboard_as_daemon s = outcome (rt.run_daemon (rt.sync_installed_binary s))

abbrev pub exit_code : Bool → ℤ
exit_code true = pos 0
exit_code false = pos 1

abbrev pub elevated_code : Option ℤ → ℤ
elevated_code none = pos 1
elevated_code (some code) = code

-- How a command that began in the state `s` has ended.
pub data Ended {F S : Type 0} (rt : CliRuntime F S) (s : S) (out : Exit S) : Type 0 where
  -- It has changed nothing.
  quiet : out.0 ≡ s → (out.1 ≡ pos 0) ⊎ (out.1 ≡ pos 1) → Ended rt s out
  -- It has stored the auto-brightness flag, which needs no privileges.
  switched :
      (enabled : Bool) → out.0 ≡ rt.set_auto_brightness enabled s → out.1 ≡ pos 0 → Ended rt s out
  -- It has made one call, as root.
  called :
      (call : Call)
      → IsAllowed call
      → rt.is_root s ≡ true
      → out.0 ≡ (perform rt call s).0
      → out.1 ≡ exit_code (perform rt call s).1
      → Ended rt s out
  -- Without privileges it has tried to have itself run again with them.
  handed_over :
      rt.is_root s ≡ false
      → out.0 ≡ (rt.elevate s).0
      → out.1 ≡ elevated_code (rt.elevate s).1
      → Ended rt s out
