-- ===== src/Macos/Fixed.antt =====
-- crates/wattwarden-platform/src/macos/mod.rs: what macOS does not offer. A reading is a constant, and
-- a setting changes nothing.
use wattwarden.Base.{ℕ, Text, text, Bool, true, false, Option, none, List, []}
use wattwarden.Core.Error.{Result, ok, Done}

abbrev ignored : {H : Type 0} → H → H × Done
ignored h = (h, ok tt)

unfoldable pub set_online_cores : {H : Type 0} → ℕ → H → H × Done
set_online_cores count h = ignored h

unfoldable pub set_freq_limit : {H : Type 0} → ℕ → H → H × Done
set_freq_limit mhz h = ignored h

unfoldable pub turbo_enabled : Result Bool
turbo_enabled = ok true

unfoldable pub set_turbo_enabled : {H : Type 0} → Bool → H → H × Done
set_turbo_enabled enabled h = ignored h

unfoldable pub energy_performance_preference : Result Text
energy_performance_preference = ok (text "default")

unfoldable pub set_energy_performance_preference : {H : Type 0} → Text → H → H × Done
set_energy_performance_preference pref h = ignored h

unfoldable pub cstates : Result (List Text)
cstates = ok []

unfoldable pub kbd_backlight : Result Bool
kbd_backlight = ok false

unfoldable pub set_kbd_backlight : {H : Type 0} → Bool → H → H × Done
set_kbd_backlight enabled h = ignored h

unfoldable pub wifi_power_save : Result Bool
wifi_power_save = ok false

unfoldable pub set_wifi_power_save : {H : Type 0} → Bool → H → H × Done
set_wifi_power_save enabled h = ignored h

unfoldable pub audio_power_save : Result Bool
audio_power_save = ok false

unfoldable pub set_audio_power_save : {H : Type 0} → Bool → H → H × Done
set_audio_power_save enabled h = ignored h

unfoldable pub autosuspend : Result Bool
autosuspend = ok false

unfoldable pub set_autosuspend : {H : Type 0} → Bool → H → H × Done
set_autosuspend enabled h = ignored h

unfoldable pub nmi_watchdog : Result Bool
nmi_watchdog = ok true

unfoldable pub set_nmi_watchdog : {H : Type 0} → Bool → H → H × Done
set_nmi_watchdog enabled h = ignored h

unfoldable pub vm_writeback_seconds : Result ℕ
vm_writeback_seconds = ok 5

unfoldable pub set_vm_writeback_seconds : {H : Type 0} → ℕ → H → H × Done
set_vm_writeback_seconds seconds h = ignored h

unfoldable pub active_window_class : Option Text
active_window_class = none
