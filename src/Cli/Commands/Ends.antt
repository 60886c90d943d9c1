-- ===== src/Cli/Commands/Ends.antt =====
-- Every command ends in one of the ways that `Ended` lists.
use wattwarden.Base.{
  ℕ, Text, Bool, true, false, Option, none, some, List, ◌≡◌, refl, ap, sym, inl, inr, Bool-cases,
  arith, ℤ, pos, if◌then◌else◌, parse_unsigned,
}
use wattwarden.Core.Float.{Float}
use wattwarden.Core.Config.{AutoExtremeLevel, performance, extreme}
use wattwarden.Cli.Runtime.{
  HealthReport, Fallible, done, failed, Tried, CliRuntime, Exit, finish_with, finish_said,
}
use wattwarden.Cli.Behaviour.{
  Call, IsAllowed, IsInRange, perform, outcome, Ended, quiet, switched, called, handed_over,
}
use wattwarden.Cli.Commands.{
  within, parse_within, as_root, after_elevation, elevated, daemon_command, install_command,
  uninstall_command, service_command, start_command, stop_command, status_command, show_report,
  health_command, cleared, query_limit, ensure_privileged, set_limit, charge_limit_command,
  calibrate_phase, calibrate_command, auto_brightness_command, switch_auto_brightness,
  say_auto_brightness, set_percent, brightness_command, choose_profile, applied, profile_command,
  choose_level, level_command,
}

within_bounds : (lo hi n : ℕ) (o : Option ℕ) → within lo hi o ≡ some n → IsInRange lo hi n
within_bounds lo hi n none e = ground arith
within_bounds lo hi n (some m) e = ground arith

module _ {F S : Type 0} (float : Float F) (rt : CliRuntime F S) where
  pub finish_with-Ended :
      (s : S) (call : Call) (prefix : Text) (lines : List Text) (r : S × Tried)
      → IsAllowed call
      → rt.is_root s ≡ true
      → perform rt call s ≡ outcome r
      → Ended rt s (finish_with prefix lines r)
  unfolding finish_with
  finish_with-Ended s call prefix lines (s', done u) allowed root e =
      called call allowed root (sym (ap (λ p. p.0) e)) (rw e refl)
  finish_with-Ended s call prefix lines (s', failed m) allowed root e =
      called call allowed root (sym (ap (λ p. p.0) e)) (rw e refl)

  finish_said-Ended :
      (s : S) (call : Call) (prefix : Text) (r : S × Fallible Text)
      → IsAllowed call
      → rt.is_root s ≡ true
      → perform rt call s ≡ outcome r
      → Ended rt s (finish_said prefix r)
  unfolding finish_said
  finish_said-Ended s call prefix (s', done u) allowed root e =
      called call allowed root (sym (ap (λ p. p.0) e)) (rw e refl)
  finish_said-Ended s call prefix (s', failed m) allowed root e =
      called call allowed root (sym (ap (λ p. p.0) e)) (rw e refl)

  as_root-Ended :
      (refusal : Text) (command : S → Exit S) (s : S)
      → (rt.is_root s ≡ true → Ended rt s (command s))
      → Ended rt s (as_root float rt refusal command s)
  unfolding as_root
  as_root-Ended refusal command s h = elim (Bool-cases (rt.is_root s)) [
    | inl root ↦ rw root (h root)
    | inr user ↦ rw user (quiet refl (inr refl))
  ]

  after_elevation-Ended :
      (refusal : Text) (s : S) (r : S × Option ℤ)
      → rt.is_root s ≡ false
      → rt.elevate s ≡ r
      → Ended rt s (after_elevation float rt refusal r)
  unfolding after_elevation
  after_elevation-Ended refusal s (s', none) user e = handed_over user (rw e refl) (rw e refl)
  after_elevation-Ended refusal s (s', some code) user e = handed_over user (rw e refl) (rw e refl)

  elevated-Ended :
      (refusal : Text) (command : S → Exit S) (s : S)
      → (rt.is_root s ≡ true → Ended rt s (command s))
      → Ended rt s (elevated float rt refusal command s)
  unfolding elevated
  elevated-Ended refusal command s h = elim (Bool-cases (rt.is_root s)) [
    | inl root ↦ rw root (h root)
    | inr user ↦ rw user (after_elevation-Ended refusal s (rt.elevate s) user refl)
  ]

  if-Ended :
      (s : S) (test : Bool) (x y : Exit S)
      → Ended rt s x
      → Ended rt s y
      → Ended rt s (if test then x else y)
  if-Ended s true x y hx hy = hx
  if-Ended s false x y hx hy = hy

  pub daemon_command-Ended : (s : S) → Ended rt s (daemon_command float rt s)
  unfolding daemon_command
  daemon_command-Ended s = search (as_root-Ended, finish_with-Ended s Call.daemon)

  pub install_command-Ended : (s : S) → Ended rt s (install_command float rt s)
  unfolding install_command
  install_command-Ended s = search (as_root-Ended, finish_with-Ended s Call.install)

  pub uninstall_command-Ended : (s : S) → Ended rt s (uninstall_command float rt s)
  unfolding uninstall_command
  uninstall_command-Ended s = search (as_root-Ended, finish_with-Ended s Call.uninstall)

  pub service_command-Ended :
      (arg : Option Text) (s : S) → Ended rt s (service_command float rt arg s)
  unfolding service_command
  service_command-Ended none s = quiet refl (inr refl)
  service_command-Ended (some arg) s =
      search (if-Ended, install_command-Ended, uninstall_command-Ended, quiet, inr)

  pub start_command-Ended : (s : S) → Ended rt s (start_command float rt s)
  unfolding start_command
  start_command-Ended s = search (as_root-Ended, finish_with-Ended s Call.start)

  stopped-Ended :
      (s : S) (lines : List Text)
      → rt.is_root s ≡ true
      → Ended rt s (rt.stop_background_daemon s, pos 0, lines)
  stopped-Ended s lines root = called Call.stop tt root refl refl

  pub stop_command-Ended : (s : S) → Ended rt s (stop_command float rt s)
  unfolding stop_command
  stop_command-Ended s = search (as_root-Ended, stopped-Ended)

  pub status_command-Ended : (s : S) → Ended rt s (status_command float rt s)
  unfolding status_command
  status_command-Ended s = quiet refl (inl refl)

  show_report-Ended :
      (show : HealthReport F → Text) (r : Fallible (HealthReport F)) (s : S)
      → Ended rt s (show_report float rt show r s)
  unfolding show_report
  show_report-Ended show (done report) s = quiet refl (inl refl)
  show_report-Ended show (failed e) s = quiet refl (inr refl)

  pub health_command-Ended : (s : S) → Ended rt s (health_command float rt s)
  unfolding health_command
  health_command-Ended s = search (show_report-Ended)

  cleared-Ended :
      (s : S) (r : S × Tried)
      → rt.is_root s ≡ true
      → rt.set_charge_limit none s ≡ r
      → Ended rt s (cleared float rt r)
  unfolding cleared
  cleared-Ended s (s', done u) root e = called (Call.limit none) tt root (rw e refl) (rw e refl)
  cleared-Ended s (s', failed m) root e = called (Call.limit none) tt root (rw e refl) (rw e refl)

  set_limit-Ended :
      (o : Option ℕ) (s : S)
      → ((n : ℕ) → o ≡ some n → IsInRange 55 100 n)
      → Ended rt s (set_limit float rt o s)
  unfolding set_limit ensure_privileged
  set_limit-Ended none s h = quiet refl (inr refl)
  set_limit-Ended (some n) s h =
      search (elevated-Ended, finish_with-Ended s (Call.limit (some n)), h n refl)

  pub charge_limit_command-Ended :
      (arg : Option Text) (s : S) → Ended rt s (charge_limit_command float rt arg s)
  unfolding charge_limit_command query_limit ensure_privileged parse_within
  charge_limit_command-Ended none s = search (show_report-Ended)
  charge_limit_command-Ended (some arg) s = search (
    if-Ended,
    elevated-Ended,
    cleared-Ended,
    set_limit-Ended (parse_within 55 100 arg) s
        (λ n e. within_bounds 55 100 n (parse_unsigned 256 arg) e),
  )

  calibrate_phase-Ended :
      (arg : Option Text) (s : S)
      → rt.is_root s ≡ true
      → Ended rt s (calibrate_phase float rt arg s)
  unfolding calibrate_phase
  calibrate_phase-Ended none s root = search (finish_said-Ended s Call.calibrate_start)
  calibrate_phase-Ended (some phase) s root = search (
    if-Ended,
    finish_said-Ended s Call.calibrate_start,
    finish_said-Ended s Call.calibrate_status,
    finish_said-Ended s Call.calibrate_finish,
    quiet,
    inr,
  )

  pub calibrate_command-Ended :
      (arg : Option Text) (s : S) → Ended rt s (calibrate_command float rt arg s)
  unfolding calibrate_command
  calibrate_command-Ended arg s = search (elevated-Ended, calibrate_phase-Ended)

  switch_auto_brightness-Ended :
      (enabled : Bool) (s : S) → Ended rt s (switch_auto_brightness float rt enabled s)
  unfolding switch_auto_brightness
  switch_auto_brightness-Ended enabled s = switched enabled refl refl

  pub auto_brightness_command-Ended :
      (arg : Option Text) (s : S) → Ended rt s (auto_brightness_command float rt arg s)
  unfolding auto_brightness_command say_auto_brightness
  auto_brightness_command-Ended none s = quiet refl (inl refl)
  auto_brightness_command-Ended (some arg) s = search (switch_auto_brightness-Ended)

  set_percent-Ended :
      (o : Option ℕ) (s : S)
      → ((n : ℕ) → o ≡ some n → IsInRange 1 100 n)
      → Ended rt s (set_percent float rt o s)
  unfolding set_percent
  set_percent-Ended none s h = quiet refl (inr refl)
  set_percent-Ended (some n) s h =
      search (as_root-Ended, finish_with-Ended s (Call.brightness n), h n refl)

  pub brightness_command-Ended :
      (arg : Option Text) (s : S) → Ended rt s (brightness_command float rt arg s)
  unfolding brightness_command say_auto_brightness parse_within
  brightness_command-Ended none s = quiet refl (inl refl)
  brightness_command-Ended (some arg) s = search (
    if-Ended,
    switch_auto_brightness-Ended,
    set_percent-Ended (parse_within 1 100 arg) s
        (λ n e. within_bounds 1 100 n (parse_unsigned 256 arg) e),
  )

  choose_profile-Ended :
      (given name : Text) (s : S)
      → rt.is_root s ≡ true
      → Ended rt s (choose_profile float rt given name s)
  unfolding choose_profile applied
  choose_profile-Ended given name s root =
      search
        (
          if-Ended,
          finish_with-Ended s (Call.profile (some performance)),
          finish_with-Ended s (Call.profile (some extreme)),
          finish_with-Ended s (Call.profile none),
          finish_with-Ended s Call.start,
          quiet,
          inr,
        )
        depth 9

  pub profile_command-Ended :
      (arg : Option Text) (s : S) → Ended rt s (profile_command float rt arg s)
  unfolding profile_command
  profile_command-Ended arg s = search (as_root-Ended, choose_profile-Ended)

  choose_level-Ended :
      (o : Option AutoExtremeLevel) (s : S)
      → rt.is_root s ≡ true
      → Ended rt s (choose_level float rt o s)
  unfolding choose_level
  choose_level-Ended none s root = quiet refl (inr refl)
  choose_level-Ended (some l) s root = search (finish_with-Ended s (Call.level l))

  pub level_command-Ended : (arg : Option Text) (s : S) → Ended rt s (level_command float rt arg s)
  unfolding level_command
  level_command-Ended arg s = search (as_root-Ended, choose_level-Ended)
