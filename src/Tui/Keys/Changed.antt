-- ===== src/Tui/Keys/Changed.antt =====
-- What Enter changes.
use wattwarden.Base.{
  ℕ, Text, text, false, Option, none, some, is_some, if◌then◌else◌, refl, inl, inr, arith,
  Bool-cases,
}
use wattwarden.Sysfs.{World, Os}
use wattwarden.Sysfs.Stable.{Keeps}
use wattwarden.Rapl.Writes.{IsPowerLimit, IsConstraint}
use wattwarden.Core.Config.{performance, normal}
use wattwarden.Core.Calibrate.{Outcome, status, start, finish}
use wattwarden.Core.Calibrate.Changes.{IsSaved, start-state, finish-state}
use wattwarden.Battery.{linux_battery}
use wattwarden.Threshold.Set.{linux_threshold}
use wattwarden.Tui.Menu
use wattwarden.Tui.Menu.{ActionItem}
use wattwarden.Tui.App.{
  Host, App, set_toast, refresh_daemon_state, stop_daemon, save_config, restore,
}
use wattwarden.Tui.Adjust.Changed.{set_charge_limit-Adjusted, toggle_boolean-Adjusted}
use wattwarden.Tui.Changes.{
  IsLimit, Changes, unchanged, purged, limited, given_back, IsReloaded, Reread, Never, Adjusted,
  Adjusted-trans, Adjusted-mono, Adjusted-if, still,
}
use wattwarden.Tui.Changes.Basic.{
  set_toast-Adjusted, refresh_daemon_state-Adjusted, stop_daemon-Adjusted,
  stop_background_daemon-Adjusted, start_daemon-Adjusted, use_profile-Adjusted,
}
use wattwarden.Tui.Keys.{
  said, beside, calibrate, restore_threshold, switch_daemon, next_level, handle_enter,
}

-- A limit that the file of the calibration holds once the daemon is told to stop.
abbrev pub IsStored : {F H : Type 0} → Host H → Os → App F H → ℕ → Type 0
IsStored host os app n =
    IsSaved (linux_threshold os app.backend.threshold) host.calibration (stop_daemon host app).host
      n

toggled-IsLimit : (o : Option ℕ) → IsLimit (if is_some o then none else some 80)
toggled-IsLimit none = (omega arith, omega arith)
toggled-IsLimit (some n) = tt

module _ {F H : Type 0} (host : Host H) (os : Os) (read : App F H → Type 0)
    (stored : ℕ → Type 0) where
  said-Adjusted :
      (r : World × H × Outcome) (app : App F H)
      → Changes host os stored app.backend app.world r.0
      → Adjusted host os read stored app (said host os r app)
  unfolding said set_toast
  said-Adjusted (w, h, outcome) app c = record { kept = refl; changed = c; chosen = λ e. inl e }

  said_beside-Adjusted :
      (r : H × Outcome) (app : App F H)
      → Adjusted host os read stored app (said host os (beside app.world r) app)
  unfolding said beside set_toast
  said_beside-Adjusted (h, outcome) app = record {
    kept = refl;
    changed = unchanged;
    chosen = λ e. inl e;
  }

  calibrate-Adjusted : (app : App F H) → Adjusted host os read stored app (calibrate host os app)
  unfolding calibrate
  calibrate-Adjusted app =
      let stopped = stop_daemon host app in
      Adjusted-trans host os read stored app stopped _
        (stop_daemon-Adjusted host os Never stored app)
        (elim (Bool-cases (is_some (host.calibration.load stopped.host))) [
          | inl begun ↦ rw begun (
              said_beside-Adjusted
                (status (linux_battery stopped.backend.battery) host.calibration stopped.world
                  stopped.host)
                stopped)
          | inr fresh ↦ rw fresh (said-Adjusted _ stopped (started stopped))
        ])
    where
      started :
          (a : App F H)
          → Changes host os stored a.backend a.world
              (start (linux_threshold os a.backend.threshold) host.calibration a.world a.host).0
      started a =
          elim (start-state (linux_threshold os a.backend.threshold) host.calibration a.world
            a.host) [
              | inl same ↦ rw same unchanged
              | inr lifted ↦ rw lifted (limited 100 (omega arith) (omega arith))
            ]

  restore_threshold-Adjusted :
      (app : App F H)
      → ((n : ℕ) → IsStored host os app n → stored n)
      → Adjusted host os read stored app (restore_threshold host os app)
  unfolding restore_threshold
  restore_threshold-Adjusted app file =
      let stopped = stop_daemon host app in
      Adjusted-trans host os read stored app stopped _
        (stop_daemon-Adjusted host os Never stored app)
        (said-Adjusted _ stopped (finished stopped file))
    where
      finished :
          (a : App F H)
          → ((n : ℕ)
              → IsSaved (linux_threshold os a.backend.threshold) host.calibration a.host n
              → stored n)
          → Changes host os stored a.backend a.world
              (finish (linux_threshold os a.backend.threshold) host.calibration a.world a.host).0
      finished a file' =
          elim (finish-state (linux_threshold os a.backend.threshold) host.calibration a.world
            a.host) [
              | inl same ↦ rw same unchanged
              | inr (t, saved, set) ↦ rw set (given_back t (file' t saved))
            ]

  switch_daemon-Adjusted :
      (app : App F H) → Adjusted host os read stored app (switch_daemon host os app)
  unfolding switch_daemon
  switch_daemon-Adjusted app =
      Adjusted-if host os read stored app app.daemon_active _ _
        (Adjusted-trans host os read stored app _ _
          (stop_background_daemon-Adjusted host os Never stored app)
          (set_toast-Adjusted host os read stored _ _))
        (Adjusted-trans host os read stored app _ _ (start_daemon-Adjusted host os Never stored app)
          (set_toast-Adjusted host os read stored _ _))

  next_level-Adjusted : (app : App F H) → Adjusted host os read stored app (next_level host os app)
  unfolding next_level save_config set_toast
  next_level-Adjusted app = record { kept = refl; changed = unchanged; chosen = λ e. inl e }

  pub restore-Adjusted :
      Keeps os IsPowerLimit IsConstraint
      → (message : Text) (app : App F H)
      → Adjusted host os read stored app (restore host os message app)
  unfolding restore
  restore-Adjusted keeps message app =
      Adjusted-trans host os read stored app (record app { confirm_extreme = false }) _
        (record { kept = refl; changed = unchanged; chosen = λ e. inl e })
        (use_profile-Adjusted host os read stored keeps normal message _ (λ e. absurd (cc)))

module _ {F H : Type 0} (host : Host H) (os : Os) (stored : ℕ → Type 0) where
  pub handle_enter-Adjusted :
      Keeps os IsPowerLimit IsConstraint
      → (item : ActionItem) (app : App F H) → ((n : ℕ) → IsStored host os app n → stored n)
      → Adjusted host os (Reread host item) stored app (handle_enter host os item app)
  unfolding handle_enter set_toast
  handle_enter-Adjusted keeps Menu.profile_performance app file =
      use_profile-Adjusted host os (Reread host Menu.profile_performance) stored keeps performance
        (text "PERFORMANCE MODE ACTIVATED") app (λ e. absurd (cc))
  handle_enter-Adjusted keeps Menu.profile_extreme app file = record {
    kept = refl;
    changed = unchanged;
    chosen = λ e. inl e;
  }
  handle_enter-Adjusted keeps Menu.profile_auto_extreme app file =
      Adjusted-trans host os (Reread host Menu.profile_auto_extreme) stored app
        (refresh_daemon_state host app) _ (refresh_daemon_state-Adjusted host os Never stored app)
        (switch_daemon-Adjusted host os (Reread host Menu.profile_auto_extreme) stored _)
  handle_enter-Adjusted keeps Menu.auto_extreme_level app file =
      next_level-Adjusted host os (Reread host Menu.auto_extreme_level) stored app
  handle_enter-Adjusted keeps Menu.auto_brightness app file =
      toggle_boolean-Adjusted host os (Reread host Menu.auto_brightness) stored Menu.auto_brightness
        app
  handle_enter-Adjusted keeps Menu.profile_restore app file =
      restore-Adjusted host os (Reread host Menu.profile_restore) stored keeps _ app
  handle_enter-Adjusted keeps Menu.charge_limit app file =
      Adjusted-mono host os (IsReloaded host) stored (Reread host Menu.charge_limit) app _
        (λ r. (refl, r))
        (set_charge_limit-Adjusted host os stored _ app
          (toggled-IsLimit app.config.battery_charge_limit))
  handle_enter-Adjusted keeps Menu.calibrate app file =
      calibrate-Adjusted host os (Reread host Menu.calibrate) stored app
  handle_enter-Adjusted keeps Menu.calib_restore app file =
      restore_threshold-Adjusted host os (Reread host Menu.calib_restore) stored app file
  handle_enter-Adjusted keeps Menu.process_purge app file = record {
    kept = refl;
    changed = purged;
    chosen = λ e. inl e;
  }
  handle_enter-Adjusted keeps item app file = still host os (Reread host item) stored app
