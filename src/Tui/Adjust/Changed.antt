-- ===== src/Tui/Adjust/Changed.antt =====
-- The charge limit, the switches and the rows of numbers.
use wattwarden.Base.{
  ℕ, ◌≤◌, Text, Bool, true, false, Option, none, some, ◌≡◌, refl, inl, inr, arith, ℤ, clamp_ℤ,
  clamp_bounds, pos, negsuc, subst,
}
use wattwarden.Core.Error.{Done, is_ok}
use wattwarden.Sysfs.{World, Os}
use wattwarden.Rapl.{LinuxRapl}
use wattwarden.Gpu.{LinuxGpu}
use wattwarden.Backlight.{LinuxBacklight, set_brightness_percent, brightness_percent}
use wattwarden.Backend.Moves.{Moves, unlit}
use wattwarden.Backend.Moves.Lit.{set_brightness_percent-LitMoves}
use wattwarden.Backend.Moves.Operations.{
  set_freq_limit-Moves, set_online_cores-Moves, set_turbo_enabled-Moves, set_gpu_freq-Moves,
}
use wattwarden.Backend.Moves.Tweaked.{
  set_wifi_power_save-Moves, set_audio_power_save-Moves, set_autosuspend-Moves,
  set_nmi_watchdog-Moves, set_kbd_backlight-Moves,
}
use wattwarden.Threshold.Set.{set_charge_threshold}
use wattwarden.Tweaks.{set_bluetooth_enabled, set_wifi_enabled, vm_writeback_centisecs}
use wattwarden.Tui.Menu
use wattwarden.Tui.Menu.{ActionItem, steps, next_charge_limit}
use wattwarden.Tui.Menu.Cycle.{IsOneOf, next_charge_limit-IsOneOf, IsOneOf-bounds}
use wattwarden.Tui.App.{Host, App, set_toast, refresh_daemon_state, stop_daemon, save_config}
use wattwarden.Tui.Adjust.{
  adjust, after_elevated, elevate_limit, hand_over, after_write, apply_limit, set_charge_limit,
  cycle_charge_limit, write_vm_writeback_centisecs, flip, toggle_boolean, step_cores, step_freq,
  step_gpu, step_power, end_auto_brightness, step_brightness, step_writeback, reload,
}
use wattwarden.Tui.Changes.{
  IsLimit, limit_arg, Changes, unchanged, moved, radio, writeback, limited, elevated, IsReloaded,
  reloaded, Never, Adjusted, Adjusted-trans, Adjusted-if, still,
}
use wattwarden.Tui.Changes.Basic.{set_toast-Adjusted, refresh_daemon_state-Adjusted}

in_cycle : (limit : Option ℕ) → IsOneOf limit steps → IsLimit limit
in_cycle none h = tt
in_cycle (some n) h = let b = IsOneOf-bounds n h in (b.0, b.1)

clamp_ℤ-bounds : (v : ℤ) → (100 ≤ clamp_ℤ v 100 6000) × (clamp_ℤ v 100 6000 ≤ 6000)
clamp_ℤ-bounds (pos n) = clamp_bounds n 100 6000 (omega arith)
clamp_ℤ-bounds (negsuc n) = (omega arith, omega arith)

module _ {F H : Type 0} (host : Host H) (os : Os) (read : App F H → Type 0)
    (stored : ℕ → Type 0) where
  adjust-Adjusted :
      (change : World → World) (message : Text) (app : App F H)
      → Changes host os stored app.backend app.world (change app.world)
      → Adjusted host os read stored app (adjust host os change message app)
  unfolding adjust set_toast
  adjust-Adjusted change message app h = record { kept = refl; changed = h; chosen = λ e. inl e }

module _ {F H : Type 0} (host : Host H) (os : Os) (stored : ℕ → Type 0) where
  after_elevated-Adjusted :
      (landed missed : Text) (limit : Option ℕ) (r : World × H × Bool) (app : App F H)
      → IsLimit limit
      → host.run_elevated_charge_limit (limit_arg limit) app.world app.host ≡ r
      → Adjusted host os (IsReloaded host) stored app (after_elevated host os landed missed r app)
  unfolding after_elevated reload set_toast
  after_elevated-Adjusted landed missed limit (w, h, true) app l e = record {
    kept = refl;
    changed =
        subst (λ r. Changes host os stored app.backend app.world r.0) e (elevated limit app.host l);
    chosen = λ x. inr (reloaded (limit_arg limit) app.world app.host e refl);
  }
  after_elevated-Adjusted landed missed limit (w, h, false) app l e = record {
    kept = refl;
    changed =
        subst (λ r. Changes host os stored app.backend app.world r.0) e (elevated limit app.host l);
    chosen = λ e. inl e;
  }

  elevate_limit-Adjusted :
      (limit : Option ℕ) (landed missed : Text) (app : App F H)
      → IsLimit limit
      → Adjusted host os
          (IsReloaded host)
          stored
          app
          (elevate_limit host os (limit_arg limit) landed missed app)
  unfolding elevate_limit
  elevate_limit-Adjusted limit landed missed app l =
      after_elevated-Adjusted landed missed limit
        (host.run_elevated_charge_limit (limit_arg limit) app.world app.host) app l refl

  hand_over-Adjusted :
      (n : ℕ) (saved : Bool) (app : App F H)
      → IsLimit (some n)
      → Adjusted host os (IsReloaded host) stored app (hand_over host os n saved app)
  unfolding hand_over
  hand_over-Adjusted n saved app l =
      Adjusted-if host os (IsReloaded host) stored app _ _ _
        (set_toast-Adjusted host os (IsReloaded host) stored _ app)
        (elevate_limit-Adjusted (some n) _ _ app l)

  handed_over :
      (n : ℕ) (saved : Bool) (app : App F H)
      → IsLimit (some n)
      → Adjusted host os
          (IsReloaded host)
          stored
          app
          (hand_over host os n saved (refresh_daemon_state host app))
  handed_over n saved app l =
      Adjusted-trans host os (IsReloaded host) stored app (refresh_daemon_state host app) _
        (refresh_daemon_state-Adjusted host os Never stored app)
        (hand_over-Adjusted n saved (refresh_daemon_state host app) l)

  written :
      (w : World) (app : App F H)
      → Changes host os stored app.backend app.world w
      → Adjusted host os Never stored app (record app { world = w })
  written w app h = record { kept = refl; changed = h; chosen = λ e. inl e }

  after_write-Adjusted :
      (n : ℕ) (saved : Bool) (r : World × Done) (app : App F H)
      → IsLimit (some n)
      → Changes host os stored app.backend app.world r.0
      → Adjusted host os (IsReloaded host) stored app (after_write host os n saved r app)
  unfolding after_write
  after_write-Adjusted n saved (w, done) app l h =
      Adjusted-trans host os (IsReloaded host) stored app (record app { world = w }) _
        (written w app h)
        (Adjusted-if host os (IsReloaded host) stored (record app { world = w }) (is_ok done) _ _
          (set_toast-Adjusted host os (IsReloaded host) stored _ _) (handed_over n saved _ l))

  apply_limit-Adjusted :
      (limit : Option ℕ) (saved : Bool) (app : App F H)
      → IsLimit limit
      → Adjusted host os (IsReloaded host) stored app (apply_limit host os limit saved app)
  unfolding apply_limit
  apply_limit-Adjusted none saved app h =
      Adjusted-if host os (IsReloaded host) stored app saved _ _
        (set_toast-Adjusted host os (IsReloaded host) stored _ app)
        (elevate_limit-Adjusted none _ _ app h)
  apply_limit-Adjusted (some n) saved app h =
      Adjusted-if host os (IsReloaded host) stored app _ _ _
        (after_write-Adjusted n saved (set_charge_threshold os app.backend.threshold n app.world)
          app h (limited n h.0 h.1))
        (handed_over n saved app h)

  pub set_charge_limit-Adjusted :
      (limit : Option ℕ) (app : App F H)
      → IsLimit limit
      → Adjusted host os (IsReloaded host) stored app (set_charge_limit host os limit app)
  unfolding set_charge_limit
  set_charge_limit-Adjusted limit app h =
      let config = record app.config { battery_charge_limit = limit } in
      let (h', saved) = host.save config app.host in
      Adjusted-trans host os (IsReloaded host) stored app
        (record app { config = config; host = h' }) _
        (record { kept = refl; changed = unchanged; chosen = λ e. inl e })
        (apply_limit-Adjusted limit saved _ h)

  pub cycle_charge_limit-Adjusted :
      (forward : Bool) (app : App F H)
      → Adjusted host os (IsReloaded host) stored app (cycle_charge_limit host os forward app)
  unfolding cycle_charge_limit
  cycle_charge_limit-Adjusted forward app =
      let limit = app.config.battery_charge_limit in
      set_charge_limit-Adjusted (next_charge_limit limit forward) app
        (in_cycle _ (next_charge_limit-IsOneOf limit forward))

module _ {F H : Type 0} (host : Host H) (os : Os) (read : App F H → Type 0)
    (stored : ℕ → Type 0) where
  flip-Adjusted :
      (current : World → Bool) (set : Bool → World → World) (label : Text) (app : App F H)
      → ((on : Bool) (w : World) → Changes host os stored app.backend w (set on w))
      → Adjusted host os read stored app (flip host os current set label app)
  unfolding flip stop_daemon adjust set_toast
  flip-Adjusted current set label app h = record {
    kept = refl;
    changed = h _ app.world;
    chosen = λ e. inl e;
  }

  pub toggle_boolean-Adjusted :
      (item : ActionItem) (app : App F H)
      → Adjusted host os read stored app (toggle_boolean host os item app)
  unfolding toggle_boolean save_config set_toast set_bluetooth_enabled set_wifi_enabled
  toggle_boolean-Adjusted Menu.auto_brightness app = record {
    kept = refl;
    changed = unchanged;
    chosen = λ e. inl e;
  }
  toggle_boolean-Adjusted Menu.turbo app =
      search (flip-Adjusted, moved, unlit, set_turbo_enabled-Moves)
  toggle_boolean-Adjusted Menu.kbd_backlight app =
      search (flip-Adjusted, moved, unlit, set_kbd_backlight-Moves)
  toggle_boolean-Adjusted Menu.bluetooth app = search (flip-Adjusted, radio)
  toggle_boolean-Adjusted Menu.wifi_enable app = search (flip-Adjusted, radio)
  toggle_boolean-Adjusted Menu.wifi_power_save app =
      search (flip-Adjusted, moved, unlit, set_wifi_power_save-Moves)
  toggle_boolean-Adjusted Menu.audio_power_save app =
      search (flip-Adjusted, moved, unlit, set_audio_power_save-Moves)
  toggle_boolean-Adjusted Menu.autosuspend app =
      search (flip-Adjusted, moved, unlit, set_autosuspend-Moves)
  toggle_boolean-Adjusted Menu.watchdog app =
      search (flip-Adjusted, moved, unlit, set_nmi_watchdog-Moves)
  toggle_boolean-Adjusted (Menu.header title) app = still host os read stored app
  toggle_boolean-Adjusted item app = still host os read stored app

  pub step_cores-Adjusted :
      (next : ℕ → ℕ → ℕ) (app : App F H)
      → Adjusted host os read stored app (step_cores host os next app)
  unfolding step_cores
  step_cores-Adjusted next app = search (adjust-Adjusted, moved, unlit, set_online_cores-Moves)

  pub step_freq-Adjusted :
      (next : ℕ → ℕ × ℕ → ℕ) (app : App F H)
      → Adjusted host os read stored app (step_freq host os next app)
  unfolding step_freq
  step_freq-Adjusted next app = search (adjust-Adjusted, moved, unlit, set_freq_limit-Moves)

  pub step_gpu-Adjusted :
      (next : ℕ → ℕ × ℕ → ℕ) (o : Option LinuxGpu) (app : App F H)
      → app.backend.gpu ≡ o
      → Adjusted host os read stored app (step_gpu host os next o app)
  unfolding step_gpu
  step_gpu-Adjusted next none app e = still host os read stored app
  step_gpu-Adjusted next (some g) app e =
      search (adjust-Adjusted, moved, unlit, set_gpu_freq-Moves os app.backend g e)

  -- Either of the power limits.
  pub step_power-Adjusted :
      (next : ℕ → ℕ × ℕ → ℕ) (current : LinuxRapl → World → ℕ) (set : LinuxRapl → ℕ → World → World)
      (label : Text) (o : Option LinuxRapl) (app : App F H)
      → ((r : LinuxRapl)
          → app.backend.rapl ≡ some r
          → (watts : ℕ) → Moves os app.backend app.world (set r watts app.world))
      → app.backend.rapl ≡ o
      → Adjusted host os read stored app (step_power host os next current set label o app)
  unfolding step_power
  step_power-Adjusted next current set label none app h e = still host os read stored app
  step_power-Adjusted next current set label (some r) app h e =
      search (adjust-Adjusted, moved, unlit)

  pub step_brightness-Adjusted :
      (next : ℕ → ℕ) (o : Option LinuxBacklight) (app : App F H)
      → Adjusted host os read stored app (step_brightness host os next o app)
  unfolding step_brightness end_auto_brightness save_config set_toast
  step_brightness-Adjusted next none app = still host os read stored app
  step_brightness-Adjusted next (some bl) app =
      let w = set_brightness_percent os (next (brightness_percent app.world)) app.world in
      let m = moved (set_brightness_percent-LitMoves os app.backend _ app.world) in
      Adjusted-if host os read stored app app.config.auto_brightness _ _
        (record { kept = refl; changed = m; chosen = λ e. inl e })
        (record { kept = refl; changed = m; chosen = λ e. inl e })

  pub step_writeback-Adjusted :
      (next : ℤ → ℤ) (app : App F H)
      → Adjusted host os read stored app (step_writeback host os next app)
  unfolding step_writeback write_vm_writeback_centisecs set_toast
  step_writeback-Adjusted next app =
      let v = next (vm_writeback_centisecs app.world) in
      let b = clamp_ℤ-bounds v in
      record { kept = refl; changed = writeback _ b.0 b.1; chosen = λ e. inl e }
