-- ===== src/Tui/Adjust.antt =====
-- crates/wattwarden-tui/src/app.rs: the charge limit and the adjustments to the left and right.
pub mod Changed
use wattwarden.Base.{
  ℕ, ◌+◌, ◌-◌, ◌%◌, ◌^◌, Text, text, Bool, true, false, ◌&&◌, not, Option, none, some, List, ◌++◌,
  min, max, if◌then◌else◌, ℤ, pos, ◌+ℤ◌, ◌-ℤ◌, clamp_ℤ, signed64, bits64, to_string, to_string_ℤ,
}
use wattwarden.Core.Error.{Done, is_ok}
use wattwarden.Core.Config.{Config}
use wattwarden.Sysfs.{World, Os}
use wattwarden.Cpu.Governor.{num_cpus}
use wattwarden.Cpu.Cores.{online_cores, set_online_cores}
use wattwarden.Cpu.Freq.{freq_limit, freq_bounds, set_freq_limit}
use wattwarden.Cpu.Preference.{turbo_enabled, set_turbo_enabled}
use wattwarden.Rapl.{LinuxRapl, rapl_bounds, pl1_watts, pl2_watts, set_pl1_watts, set_pl2_watts}
use wattwarden.Gpu.{LinuxGpu, gpu_bounds, gpu_freq, set_gpu_freq}
use wattwarden.Backlight.{LinuxBacklight, brightness_percent, set_brightness_percent}
use wattwarden.Threshold.Set.{supports_threshold, set_charge_threshold}
use wattwarden.Tweaks.{
  vm_writeback_min_centisecs, vm_writeback_max_centisecs, vm_writeback_centisecs,
  set_vm_writeback_centisecs, kbd_backlight, set_kbd_backlight, bluetooth_enabled,
  set_bluetooth_enabled, wifi_enabled, set_wifi_enabled, wifi_power_save, set_wifi_power_save,
  audio_power_save, set_audio_power_save, autosuspend, set_autosuspend, nmi_watchdog_enabled,
  set_nmi_watchdog,
}
use wattwarden.Tui.Menu
use wattwarden.Tui.Menu.{ActionItem, stops_daemon_on_adjust, next_charge_limit}
use wattwarden.Tui.App.{Host, App, words, set_toast, stop_daemon, save_config, refresh_daemon_state}

on_off : Bool → Text
on_off true = text "ON"
on_off false = text "OFF"

-- `a + b` in an unsigned type of the given number of values, as in a release build. A debug build panics
-- where the sum does not fit.
abbrev pub wrapping_add : ℕ → ℕ → ℕ → ℕ
wrapping_add size a b = (a + b) % size

unfoldable pub write_vm_writeback_centisecs : Os → ℤ → World → World
write_vm_writeback_centisecs os value w =
    set_vm_writeback_centisecs os
      (pos (clamp_ℤ value vm_writeback_min_centisecs vm_writeback_max_centisecs)) w

module _ {F H : Type 0} (host : Host H) (os : Os) where
  open host use {save, load, run_elevated_charge_limit}

  -- A change of the hardware, and the message that is then shown.
  adjust : (World → World) → Text → App F H → App F H
  unfolding set_toast
  adjust change message app =
      set_toast host (words message) (record app { world = change app.world })

  -- The elevated run has stored the configuration, which is read again.
  reload : World → H → App F H → App F H
  reload w h app = record app { world = w; host = h; config = load h }

  after_elevated : Text → Text → World × H × Bool → App F H → App F H
  unfolding reload set_toast
  after_elevated landed missed (w, h, true) app = set_toast host (words landed) (reload w h app)
  after_elevated landed missed (w, h, false) app =
      set_toast host (words missed) (record app { world = w; host = h })

  elevate_limit : Text → Text → Text → App F H → App F H
  unfolding after_elevated
  elevate_limit arg landed missed app =
      after_elevated landed missed (run_elevated_charge_limit arg app.world app.host) app

  -- What is left where the hardware does not take the limit from this process.
  hand_over : ℕ → Bool → App F H → App F H
  unfolding elevate_limit set_toast
  hand_over n saved app =
      let said = text "CHARGE LIMIT: " ++ to_string n in
      if saved && app.daemon_active
      then set_toast host (words (said ++ text "% (daemon enforcing)")) app
      else elevate_limit (to_string n) (said ++ text "% (active)")
          (if saved
            then said ++ (text "% SAVED - run: sudo wattwarden charge-limit " ++ to_string n)
            else text "CHARGE LIMIT NOT SAVED - run: sudo wattwarden charge-limit " ++ to_string n)
          app

  after_write : ℕ → Bool → World × Done → App F H → App F H
  unfolding hand_over refresh_daemon_state set_toast
  after_write n saved (w, done) app =
      let written = record app { world = w } in
      if is_ok done
      then set_toast host (words (text "CHARGE LIMIT: " ++ (to_string n ++ text "% (active)")))
          written
      else hand_over n saved (refresh_daemon_state host written)

  apply_limit : Option ℕ → Bool → App F H → App F H
  unfolding after_write hand_over refresh_daemon_state elevate_limit set_toast
  apply_limit (some n) saved app =
      if supports_threshold app.backend.threshold app.world
      then after_write n saved (set_charge_threshold os app.backend.threshold n app.world) app
      else hand_over n saved (refresh_daemon_state host app)
  apply_limit none saved app =
      if saved
      then set_toast host (words (text "CHARGE LIMIT: OFF (threshold untouched)")) app
      else elevate_limit (text "off") (text "CHARGE LIMIT: OFF (threshold untouched)")
          (text "CHARGE LIMIT NOT CLEARED - run: sudo wattwarden charge-limit off") app

  -- Stores the ceiling and has it applied; no ceiling leaves the threshold alone.
  unfoldable pub set_charge_limit : Option ℕ → App F H → App F H
  unfolding apply_limit
  set_charge_limit limit app =
      let config = record app.config { battery_charge_limit = limit } in
      let (h, saved) = save config app.host in
      apply_limit limit saved (record app { config = config; host = h })

  unfoldable pub cycle_charge_limit : Bool → App F H → App F H
  unfolding set_charge_limit next_charge_limit
  cycle_charge_limit forward app =
      set_charge_limit (next_charge_limit app.config.battery_charge_limit forward) app

  -- A switch of the hardware is turned over.
  flip : (World → Bool) → (Bool → World → World) → Text → App F H → App F H
  unfolding adjust stop_daemon on_off
  flip current set label app =
      let on = not (current app.world) in
      adjust (set on) (label ++ on_off on) (stop_daemon host app)

  unfoldable pub toggle_boolean : ActionItem → App F H → App F H
  unfolding flip save_config set_toast on_off
  toggle_boolean Menu.auto_brightness app =
      let on = not app.config.auto_brightness in
      set_toast host (words (text "AUTO BRIGHTNESS: " ++ on_off on))
        (save_config host (record app.config { auto_brightness = on }) app)
  toggle_boolean Menu.turbo app =
      flip turbo_enabled (set_turbo_enabled os) (text "TURBO BOOST: ") app
  toggle_boolean Menu.kbd_backlight app =
      flip kbd_backlight (set_kbd_backlight os) (text "KEYBOARD LIGHT: ") app
  toggle_boolean Menu.bluetooth app =
      flip bluetooth_enabled (set_bluetooth_enabled os) (text "BLUETOOTH: ") app
  toggle_boolean Menu.wifi_enable app =
      flip wifi_enabled (set_wifi_enabled os) (text "WIFI ENABLE: ") app
  toggle_boolean Menu.wifi_power_save app =
      flip wifi_power_save (set_wifi_power_save os) (text "WIFI POWER SAVE: ") app
  toggle_boolean Menu.audio_power_save app =
      flip audio_power_save (set_audio_power_save os) (text "AUDIO POWER SAVE: ") app
  toggle_boolean Menu.autosuspend app =
      flip autosuspend (set_autosuspend os) (text "AUTOSUSPEND PCI/USB: ") app
  toggle_boolean Menu.watchdog app =
      flip nmi_watchdog_enabled (set_nmi_watchdog os) (text "WATCHDOG KERNEL: ") app
  toggle_boolean item app = app

  -- The settings of a row of numbers: the current value, the next one and how it is stored. `next`
  -- is given the bounds.
  unfoldable pub step_cores : (ℕ → ℕ → ℕ) → App F H → App F H
  unfolding adjust
  step_cores next app =
      let total = num_cpus app.backend.cpu app.world in
      let n = next (online_cores app.backend.cpu app.world) total in
      adjust (set_online_cores os app.backend.cpu n)
        (text "ACTIVE CORES: "
          ++ (to_string n
              ++ (text " / "
                  ++ to_string (
                      num_cpus app.backend.cpu (set_online_cores os app.backend.cpu n app.world)))))
        app

  unfoldable pub step_freq : (ℕ → ℕ × ℕ → ℕ) → App F H → App F H
  unfolding adjust
  step_freq next app =
      let n = next (freq_limit app.world) (freq_bounds app.backend.cpu app.world) in
      adjust (set_freq_limit os app.backend.cpu n)
        (text "CPU FREQ: " ++ (to_string n ++ text " MHz")) app

  unfoldable pub step_gpu : (ℕ → ℕ × ℕ → ℕ) → Option LinuxGpu → App F H → App F H
  unfolding adjust
  step_gpu next none app = app
  step_gpu next (some g) app =
      let n = next (gpu_freq g app.world) (gpu_bounds g app.world) in
      adjust (set_gpu_freq os g n) (text "FREQ IGPU: " ++ (to_string n ++ text " MHz")) app

  unfoldable pub step_power :
      (ℕ → ℕ × ℕ → ℕ)
      → (LinuxRapl → World → ℕ)
      → (LinuxRapl → ℕ → World → World)
      → Text
      → Option LinuxRapl
      → App F H
      → App F H
  unfolding adjust
  step_power next current set label none app = app
  step_power next current set label (some r) app =
      let n = next (current r app.world) (rapl_bounds r app.world) in
      adjust (set r n) (label ++ (to_string n ++ text " W")) app

  -- A brightness that is set by hand ends the automatic one.
  end_auto_brightness : App F H → App F H
  unfolding save_config set_toast
  end_auto_brightness app =
      if app.config.auto_brightness
      then set_toast host (words (text "AUTO BRIGHTNESS: OFF"))
          (save_config host (record app.config { auto_brightness = false }) app)
      else app

  unfoldable pub step_brightness : (ℕ → ℕ) → Option LinuxBacklight → App F H → App F H
  unfolding end_auto_brightness
  step_brightness next none app = app
  step_brightness next (some bl) app = end_auto_brightness (record app {
    world = set_brightness_percent os (next (brightness_percent app.world)) app.world;
  })

  unfoldable pub step_writeback : (ℤ → ℤ) → App F H → App F H
  unfolding adjust write_vm_writeback_centisecs
  step_writeback next app =
      let w = write_vm_writeback_centisecs os (next (vm_writeback_centisecs app.world)) app.world in
      set_toast host (words (text "VM WRITEBACK: " ++ to_string_ℤ (vm_writeback_centisecs w)))
        (record app { world = w })
