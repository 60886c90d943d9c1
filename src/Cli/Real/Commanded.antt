-- ===== src/Cli/Real/Commanded.antt =====
-- What a command line does to the hardware.
use wattwarden.Base.{
  ℕ, ◌≤◌, Text, true, Option, none, some, List, ◌∷◌, ◌≡◌, refl, sym, inl, inr, subst, arith,
  Bool-cases,
}
use wattwarden.Core.Float.{Float}
use wattwarden.Core.Error.{Done}
use wattwarden.Core.Calibrate.{Outcome, start, status, finish}
use wattwarden.Core.Calibrate.Changes.{IsSaved, start-state, finish-state}
use wattwarden.Sysfs.{World, Os}
use wattwarden.Sysfs.Stable.{Keeps}
use wattwarden.Rapl.Writes.{IsPowerLimit, IsConstraint}
use wattwarden.Battery.{linux_battery}
use wattwarden.Threshold.Set.{supports_threshold, set_charge_threshold, linux_threshold}
use wattwarden.Backlight.{LinuxBacklight}
use wattwarden.Backend.{with_root}
use wattwarden.Backend.Moves.{LitMoves}
use wattwarden.Backend.Moves.Lit.{set_brightness_percent-LitMoves}
use wattwarden.Backend.Profiles.{apply_profile-Moves}
use wattwarden.Escalation.{Escalation, rerun_elevated}
use wattwarden.Cli.Runtime.{Fallible, done, failed, Tried}
use wattwarden.Cli.Behaviour.{
  Call, IsAllowed, perform, outcome, quiet, switched, called, handed_over,
}
use wattwarden.Cli.Dispatch.{Surroundings, run}
use wattwarden.Cli.Dispatch.Ends.{run-Ended}
use wattwarden.Cli.Real.{
  System, applied, apply_ceiling, set_charge_limit, said_with, said_beside, calibrate_start,
  calibrate_status, calibrate_finish, set_profile, dim, set_brightness, elevated, elevate_as,
  elevate, real_runtime, set_auto_extreme_level, beside,
}

-- The ways in which a command line changes the hardware, when it starts with the files and processes
-- of `h`.
pub data Commanded {H : Type 0} (sys : System H) (os : Os) (w : World) (h : H)
    : World → Type 0 where
  unchanged : Commanded sys os w h w
  -- Operations of the backend, which stay within what the machine declares
  moved : {w' : World} → LitMoves os (with_root w) w w' → Commanded sys os w h w'
  -- A charge limit of 55 to 100, or the one that the file of a calibration holds at the start
  limited :
      (n : ℕ)
      → 55 ≤ n
      → n ≤ 100
      → Commanded sys os w h (set_charge_threshold os (with_root w).threshold n w).0
  given_back :
      (n : ℕ)
      → IsSaved (linux_threshold os (with_root w).threshold) sys.calibration h n
      → Commanded sys os w h (set_charge_threshold os (with_root w).threshold n w).0
  -- The daemon or the dashboard, which the command line has started
  ran_daemon : Commanded sys os w h (sys.run_daemon (w, h)).0.0
  ran_synced : Commanded sys os w h (sys.run_daemon (w, sys.sync_installed_binary h)).0.0
  ran_dashboard : Commanded sys os w h (sys.launch_dashboard (w, sys.sync_installed_binary h)).0.0
  -- The same command line, run with privileges
  rerun :
      (exe : Text)
      → sys.exe ≡ some exe
      → Commanded sys os w h (rerun_elevated sys.processes (exe ∷ sys.arguments) true (w, h)).0.0

module _ {F H : Type 0} (float : Float F) (sys : System H) (os : Os)
    (keeps : Keeps os IsPowerLimit IsConstraint) where
  applied-world : (h : H) (r : World × Done) → (applied float sys os h r).0.0 ≡ r.0
  unfolding applied
  applied-world h (w, r) = refl

  apply_ceiling-Commanded :
      (n : ℕ) (w : World) (h : H) (r : H × Tried)
      → 55 ≤ n
      → n ≤ 100
      → Commanded sys os w h (apply_ceiling float sys os (some n) w r).0.0
  unfolding apply_ceiling
  apply_ceiling-Commanded n w h (h', failed m) lo hi = unchanged
  apply_ceiling-Commanded n w h (h', done u) lo hi =
      let t = (with_root w).threshold in
      elim (Bool-cases (supports_threshold t w)) [
        | inl there ↦ rw there (
            subst (Commanded sys os w h) (sym (applied-world h' (set_charge_threshold os t n w)))
              (limited n lo hi))
        | inr missing ↦ rw missing unchanged
      ]

  apply_none-world : (w : World) (r : H × Tried) → (apply_ceiling float sys os none w r).0.0 ≡ w
  unfolding apply_ceiling
  apply_none-world w (h, failed m) = refl
  apply_none-world w (h, done u) = refl

  said_with-world : (r : World × H × Outcome) → (said_with float sys os r).0.0 ≡ r.0
  unfolding said_with
  said_with-world (w, h, o) = refl

  said_beside-world : (w : World) (r : H × Outcome) → (said_beside float sys os w r).0.0 ≡ w
  unfolding said_beside
  said_beside-world w (h, o) = refl

  beside-world : (w : World) (r : H × Tried) → (beside float sys os w r).0.0 ≡ w
  beside-world w (h, r) = refl

  dim-Commanded :
      (o : Option LinuxBacklight) (n : ℕ) (w : World) (h : H)
      → Commanded sys os w h (dim float sys os o n (w, h)).0.0
  unfolding dim
  dim-Commanded none n w h = unchanged
  dim-Commanded (some d) n w h = moved (set_brightness_percent-LitMoves os (with_root w) _ w)

  started :
      (w : World) (h : H)
      → Commanded sys os w h
          (start (linux_threshold os (with_root w).threshold) sys.calibration w h).0
  started w h =
      elim (start-state (linux_threshold os (with_root w).threshold) sys.calibration w h) [
        | inl same ↦ rw same unchanged
        | inr lifted ↦ rw lifted (limited 100 (omega arith) (omega arith))
      ]

  finished :
      (w : World) (h : H)
      → Commanded sys os w h
          (finish (linux_threshold os (with_root w).threshold) sys.calibration w h).0
  finished w h =
      elim (finish-state (linux_threshold os (with_root w).threshold) sys.calibration w h) [
        | inl same ↦ rw same unchanged
        | inr (t, saved, set) ↦ rw set (given_back t saved)
      ]

  through :
      {A : Type 0} (w : World) (h : H) (r : (World × H) × Fallible A)
      → Commanded sys os w h r.0.0
      → Commanded sys os w h (outcome r).0.0
  through w h (m, done a) c = c
  through w h (m, failed e) c = c

  beside-Commanded :
      (w w' : World) (h : H) (r : H × Tried)
      → Commanded sys os w h w'
      → Commanded sys os w h (outcome (beside float sys os w' r)).0.0
  beside-Commanded w w' h (h', done a) c = c
  beside-Commanded w w' h (h', failed e) c = c

  said_with-Commanded :
      (w : World) (h : H) (r : World × H × Outcome)
      → Commanded sys os w h r.0
      → Commanded sys os w h (outcome (said_with float sys os r)).0.0
  said_with-Commanded w h r c =
      through w h (said_with float sys os r)
        (subst (Commanded sys os w h) (sym (said_with-world r)) c)

  set_charge_limit-Commanded :
      (o : Option ℕ) (w : World) (h : H)
      → IsAllowed (Call.limit o)
      → Commanded sys os w h (set_charge_limit float sys os o (w, h)).0.0
  unfolding set_charge_limit
  set_charge_limit-Commanded none w h a =
      subst (Commanded sys os w h) (sym (apply_none-world w _)) unchanged
  set_charge_limit-Commanded (some n) w h a = apply_ceiling-Commanded n w h _ a.0 a.1

  call-Commanded :
      (call : Call) (w : World) (h : H)
      → IsAllowed call
      → Commanded sys os w h (perform (real_runtime float sys os) call (w, h)).0.0
  unfolding calibrate_start calibrate_status calibrate_finish set_profile set_brightness
      set_auto_extreme_level
  call-Commanded Call.daemon w h a = through w h (sys.run_daemon (w, h)) ran_daemon
  call-Commanded Call.install w h a = beside-Commanded w w h _ unchanged
  call-Commanded Call.uninstall w h a = beside-Commanded w w h _ unchanged
  call-Commanded Call.start w h a = beside-Commanded w w h _ unchanged
  call-Commanded Call.stop w h a = unchanged
  call-Commanded (Call.limit o) w h a =
      through w h (set_charge_limit float sys os o (w, h)) (set_charge_limit-Commanded o w h a)
  call-Commanded Call.calibrate_start w h a = said_with-Commanded w h _ (started w h)
  call-Commanded Call.calibrate_status w h a = through w h _ (
      subst (Commanded sys os w h)
        (sym
          (said_beside-world w (status (linux_battery (with_root w).battery) sys.calibration w h)))
        unchanged)
  call-Commanded Call.calibrate_finish w h a = said_with-Commanded w h _ (finished w h)
  call-Commanded (Call.profile p) w h a =
      beside-Commanded w _ h _ (moved (apply_profile-Moves os keeps (with_root w) _ w))
  call-Commanded (Call.level l) w h a = beside-Commanded w w h _ unchanged
  call-Commanded (Call.brightness n) w h a =
      through w h _ (dim-Commanded (with_root w).backlight n w h)
  call-Commanded Call.dashboard w h a =
      through w h (sys.launch_dashboard (w, sys.sync_installed_binary h)) ran_dashboard
  call-Commanded Call.dashboard_as_daemon w h a =
      through w h (sys.run_daemon (w, sys.sync_installed_binary h)) ran_synced

  elevated-state : (r : (World × H) × Escalation) → (elevated float sys os r).0 ≡ r.0
  unfolding elevated
  elevated-state (m, e) = refl

  elevate_as-Commanded :
      (o : Option Text) (w : World) (h : H)
      → sys.exe ≡ o
      → Commanded sys os w h (elevate_as float sys os o (w, h)).0.0
  unfolding elevate_as
  elevate_as-Commanded none w h e = unchanged
  elevate_as-Commanded (some exe) w h e =
      subst (λ m. Commanded sys os w h m.0)
        (sym (elevated-state (rerun_elevated sys.processes (exe ∷ sys.arguments) true (w, h))))
        (rerun exe e)

  elevate-Commanded : (w : World) (h : H) → Commanded sys os w h (elevate float sys os (w, h)).0.0
  unfolding elevate
  elevate-Commanded w h = elevate_as-Commanded sys.exe w h refl

  -- Whatever the command line, and with or without privileges, the program leaves the hardware as
  -- it is, or applies operations of the backend (each frequency, power and GPU write lies in the
  -- range that the machine declares when its component begins, and the brightness is 1 to 100
  -- percent of the maximum that a device declares, in 64-bit arithmetic), or sets a charge limit of
  -- 55 to 100 or the one that the file of the calibration holds when the program starts, or runs
  -- the daemon, the dashboard or, with privileges, the same command line. The kernel is assumed to
  -- keep a RAPL zone's constraints where a power limit is written.
  pub run-Commanded :
      (env : Surroundings) (args : List Text) (w : World) (h : H)
      → Commanded sys os w h (run float (real_runtime float sys os) env args (w, h)).0.0
  run-Commanded env args w h =
      let rt = real_runtime float sys os in
      elim (run-Ended float rt env args (w, h)) [
        | quiet same code ↦ subst (λ m. Commanded sys os w h m.0) (sym same) unchanged
        | switched on set code ↦ subst (λ m. Commanded sys os w h m.0) (sym set) unchanged
        | called call allowed root made code ↦
            subst (λ m. Commanded sys os w h m.0) (sym made) (call-Commanded call w h allowed)
        | handed_over user given code ↦
            subst (λ m. Commanded sys os w h m.0) (sym given) (elevate-Commanded w h)
      ]
