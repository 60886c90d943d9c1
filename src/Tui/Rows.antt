-- ===== src/Tui/Rows.antt =====
-- crates/wattwarden-tui/src/app.rs: what the rows of the menu show, and the cache of the rows.
use wattwarden.Base.{
  ℕ, ◌-◌, Text, text, Bool, true, false, not, ◌&&◌, Option, none, some, List, [], ◌++◌, map, ltb,
  if◌then◌else◌, pos, to_string, to_string_ℤ, to_uppercase,
}
use wattwarden.Core.Error.{unwrap_or}
use wattwarden.Core.Float.{Float}
use wattwarden.Core.BatteryHealth.{BatteryHealth, default_health, health_pct}
use wattwarden.Core.Calibrate.{Phase, charge, discharge, recharge, CalibrationState}
use wattwarden.Core.Config.{PowerProfile, performance, extreme, display_level}
use wattwarden.Cpu.Governor.{num_cpus}
use wattwarden.Cpu.Cores.{online_cores}
use wattwarden.Cpu.Freq.{freq_limit}
use wattwarden.Cpu.Preference.{turbo_enabled, energy_preference}
use wattwarden.Rapl.{pl1_watts, pl2_watts}
use wattwarden.Gpu.{gpu_freq}
use wattwarden.Aspm.{policy}
use wattwarden.Backlight.{brightness_percent}
use wattwarden.Battery.Health.{health}
use wattwarden.Tweaks.{
  vm_writeback_centisecs, kbd_backlight, bluetooth_enabled, wifi_enabled, wifi_power_save,
  audio_power_save, autosuspend, nmi_watchdog_enabled,
}
use wattwarden.Tui.Menu.{ActionItem}
use wattwarden.Tui.App.{Host, App}
use wattwarden.Tui.Line.{display_bool, format_number}
use wattwarden.Tui.Screen.{RowInfo}

-- `Phase::name`
unfoldable pub phase_name : Phase → Text
phase_name charge = text "charge"
phase_name discharge = text "discharge"
phase_name recharge = text "recharge"

-- `format!("[{}]", s)`
abbrev pub bracketed : Text → Text
bracketed s = text "[" ++ s ++ text "]"

unfoldable pub calibration_display : Option CalibrationState → Text
unfolding phase_name
calibration_display (some s) = bracketed (phase_name s.phase)
calibration_display none = text "[not started]"

abbrev pub row : Text → Text → Bool → RowInfo
row name value active = record { name = name; value = value; active = active }

-- A command, which is marked while it is in force.
abbrev command_row : Text → Bool → RowInfo
command_row name true = row name (text "[ACTIVE]") true
command_row name false = row name (text "[EXECUTE]") false

abbrev switch_row : Text → Bool → RowInfo
switch_row name b = row name (display_bool b) b

abbrev number_row : Text → ℕ → RowInfo
number_row name n = row name (format_number (pos n)) false

-- `self.config.profile == Some(p)`
abbrev is_performance : Option PowerProfile → Bool
is_performance (some performance) = true
is_performance o = false

abbrev is_extreme : Option PowerProfile → Bool
is_extreme (some extreme) = true
is_extreme o = false

-- `as_ref().and_then(…).unwrap_or(…)`
abbrev reading {ℓ} : {A : Type ℓ} {B : Type ℓ} → (A → B) → B → Option A → B
reading f b none = b
reading f b (some a) = f a

abbrev limit_row : Option ℕ → RowInfo
limit_row (some limit) = row (text "Charge Limit") (bracketed (to_string limit ++ text "%")) true
limit_row none = row (text "Charge Limit") (text "[OFF]") false

module _ {F H : Type 0} (float : Float F) (host : Host H) where
  health_of : App F H → BatteryHealth F
  health_of app = unwrap_or default_health (health float app.backend.battery app.world)

  unfoldable pub row_info : App F H → ActionItem → RowInfo
  unfolding health_of calibration_display display_bool format_number
  row_info app (ActionItem.header title) = row title [] false
  row_info app ActionItem.profile_performance =
      command_row (text "⚡ Performance Mode") (is_performance app.config.profile)
  row_info app ActionItem.profile_extreme =
      command_row (text "🔋 Extreme Mode") (is_extreme app.config.profile)
  row_info app ActionItem.profile_auto_extreme =
      command_row (text "⚡ Auto Extreme Mode") app.daemon_active
  row_info app ActionItem.auto_extreme_level =
      row (text "Auto Extreme Level")
        (bracketed (to_uppercase (display_level app.config.auto_extreme_level))) false
  row_info app ActionItem.auto_brightness =
      switch_row (text "Auto Brightness") app.config.auto_brightness
  row_info app ActionItem.profile_restore = command_row (text "♻  Restore Mode") false
  row_info app ActionItem.health_line =
      row (text "Battery Health")
        (reading (λ p. bracketed (float.display p ++ text "%")) (text "[N/A]")
          (health_pct float (health_of app)))
        false
  row_info app ActionItem.cycle_line =
      row (text "Battery Cycles")
        (reading (λ c. bracketed (to_string c)) (text "[N/A]") (health_of app).cycle_count) false
  row_info app ActionItem.temp_line =
      row (text "Battery Temp")
        (reading (λ t. bracketed (float.one_decimal t ++ text "°C")) (text "[N/A]")
          (health_of app).temp_c)
        false
  row_info app ActionItem.charge_limit = limit_row app.config.battery_charge_limit
  row_info app ActionItem.calibration =
      row (text "Calibration") (calibration_display (host.calibration.load app.host)) false
  row_info app ActionItem.calibrate = command_row (text "Calibrate") false
  row_info app ActionItem.calib_restore = command_row (text "Calib Restore") false
  row_info app ActionItem.cores =
      row (text "Active Cores")
        (bracketed (
          to_string (online_cores app.backend.cpu app.world)
          ++ text " / "
          ++ to_string (num_cpus app.backend.cpu app.world)))
        false
  row_info app ActionItem.freq_limit = number_row (text "CPU Freq (MHz)") (freq_limit app.world)
  row_info app ActionItem.gpu_freq =
      number_row (text "Freq iGPU (MHz)") (reading (λ g. gpu_freq g app.world) 0 app.backend.gpu)
  row_info app ActionItem.rapl_pl1 =
      number_row (text "RAPL PL1 (W)") (reading (λ r. pl1_watts r app.world) 0 app.backend.rapl)
  row_info app ActionItem.rapl_pl2 =
      number_row (text "RAPL PL2 (W)") (reading (λ r. pl2_watts r app.world) 0 app.backend.rapl)
  row_info app ActionItem.turbo = switch_row (text "Turbo Boost") (turbo_enabled app.world)
  row_info app ActionItem.epp =
      row (text "Energy Perf Pref")
        (bracketed (reading (λ s. s) (text "N/A") (energy_preference app.world))) false
  row_info app ActionItem.aspm =
      row (text "PCIe ASPM Policy")
        (bracketed (reading (λ a. policy app.world) (text "default") app.backend.aspm)) false
  row_info app ActionItem.brightness =
      row (text "LCD Brightness (%)")
        (bracketed
          (to_string (reading (λ b. brightness_percent app.world) 0 app.backend.backlight)))
        false
  row_info app ActionItem.kbd_backlight =
      switch_row (text "Keyboard Light") (kbd_backlight app.world)
  row_info app ActionItem.bluetooth = switch_row (text "Bluetooth") (bluetooth_enabled app.world)
  row_info app ActionItem.wifi_enable = switch_row (text "WiFi Enable") (wifi_enabled app.world)
  row_info app ActionItem.wifi_power_save =
      switch_row (text "WiFi Power Save") (wifi_power_save app.world)
  row_info app ActionItem.audio_power_save =
      switch_row (text "Audio Power Save") (audio_power_save app.world)
  row_info app ActionItem.autosuspend =
      switch_row (text "Autosuspend PCI/USB") (autosuspend app.world)
  row_info app ActionItem.watchdog =
      switch_row (text "Watchdog Kernel") (nmi_watchdog_enabled app.world)
  row_info app ActionItem.vm_writeback =
      row (text "VM Writeback (s)") (bracketed (to_string_ℤ (vm_writeback_centisecs app.world)))
        false
  row_info app ActionItem.process_purge = command_row (text "Process Purge") false

-- The fields of the state that only the drawing uses.
pub record RowCache : Type 0 where
  pub rows : List RowInfo
  pub rows_dirty : Bool
  pub rows_checked : ℕ

-- In milliseconds.
abbrev pub rows_ttl : ℕ
rows_ttl = 500

unfoldable pub mark_rows_dirty : RowCache → RowCache
mark_rows_dirty cache = record cache { rows_dirty = true }

module _ {F H : Type 0} (float : Float F) (host : Host H) where
  unfoldable pub refresh_rows_if_stale : App F H → RowCache → RowCache
  unfolding row_info
  refresh_rows_if_stale app cache =
      if not cache.rows_dirty && ltb (host.now app.host - cache.rows_checked) rows_ttl
      then cache
      else record {
        rows = map (row_info float host app) app.items;
        rows_dirty = false;
        rows_checked = host.now app.host;
      }
