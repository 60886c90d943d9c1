-- ===== src/Tweaks.antt =====
-- crates/wattwarden-platform/src/linux/tweaks.rs and linux/peripherals.rs: the kernel and driver
-- tweaks, the keyboard backlight and the radio switches. No method returns an error.

use wattwarden.Base.{
  ℕ, ◌*◌, ◌/◌, ◌-◌, ◌^◌, Text, text, text_eq, Bool, true, false, not, Option, none, some, List, [],
  ◌∷◌, ◌++◌, map, any, keep, filter_map, ltb, clamp, if◌then◌else◌, each, ℤ, pos, pos_part,
  wrap_u32, split_whitespace, ends_with, contains, split, to_string, to_string_ℤ,
}
use wattwarden.Sysfs.{
  World, Os, Node, usb, pci, power_control, iwlwifi_power_save, snd_hda_power_save,
  snd_hda_power_save_controller, nmi_watchdog, dirty_writeback, drop_caches, usb_devices,
  pci_devices, leds_base, led_brightness, led_max_brightness, read, read_i64, exists,
  write_best_effort, run_capture, run_ignored,
}

abbrev pub vm_writeback_min_centisecs : ℕ
vm_writeback_min_centisecs = 100

abbrev pub vm_writeback_max_centisecs : ℕ
vm_writeback_max_centisecs = 6000

-- The name in a line `Interface NAME …`.
interface_of : List Text → Option Text
interface_of (key ∷ name ∷ rest) = if text_eq key (text "Interface") then some name else none
interface_of words = none

-- `lines` may leave a carriage return at the end of a line, which the split into words drops.
unfoldable pub wifi_interfaces : World → List Text
unfolding interface_of
wifi_interfaces w =
    filter_map (λ line. interface_of (split_whitespace line))
      (split 10 (run_capture w (text "iw" ∷ text "dev" ∷ [])))

-- Best-effort write that only touches a node the kernel actually exposes.
unfoldable pub write_node : Os → Node → Text → World → World
write_node os p val w = if exists w p then write_best_effort os p val w else w

unfoldable pub control_nodes : World → List Node
control_nodes w =
    map (power_control usb) (w.tree.names usb_devices)
    ++ map (power_control pci) (w.tree.names pci_devices)

unfoldable pub wifi_power_save : World → Bool
wifi_power_save w =
    if any
      (λ iface.
        contains
          (run_capture w (text "iw" ∷ text "dev" ∷ iface ∷ text "get" ∷ text "power_save" ∷ []))
          (text "on"))
      (wifi_interfaces w)
    then true
    else text_eq (read w iwlwifi_power_save) (text "Y")

unfoldable pub set_interface : Os → Text → Text → World → World
set_interface os state iface w =
    run_ignored os (text "iw" ∷ text "dev" ∷ iface ∷ text "set" ∷ text "power_save" ∷ state ∷ []) w

unfoldable pub set_wifi_power_save : Os → Bool → World → World
unfolding set_interface
set_wifi_power_save os enabled w =
    let v = write_node os iwlwifi_power_save (if enabled then text "Y" else text "N") w in
    each (set_interface os (if enabled then text "on" else text "off")) (wifi_interfaces v) v

-- A missing parameter file reads as enabled.
unfoldable pub audio_power_save : World → Bool
audio_power_save w = not (text_eq (read w snd_hda_power_save) (text "0"))

unfoldable pub set_audio_power_save : Os → Bool → World → World
set_audio_power_save os enabled w =
    write_node os snd_hda_power_save_controller (if enabled then text "Y" else text "N")
      (write_node os snd_hda_power_save (if enabled then text "1" else text "0") w)

unfoldable pub autosuspend : World → Bool
autosuspend w =
    any (λ device. text_eq (read w (power_control usb device)) (text "auto"))
      (w.tree.names usb_devices)

unfoldable pub set_autosuspend : Os → Bool → World → World
set_autosuspend os enabled w =
    each (λ p. write_node os p (if enabled then text "auto" else text "on")) (control_nodes w) w

unfoldable pub nmi_watchdog_enabled : World → Bool
nmi_watchdog_enabled w = text_eq (read w nmi_watchdog) (text "1")

unfoldable pub set_nmi_watchdog : Os → Bool → World → World
set_nmi_watchdog os enabled w =
    write_node os nmi_watchdog (if enabled then text "1" else text "0") w

abbrev or_zero : Option ℤ → ℤ
or_zero none = pos 0
or_zero (some v) = v

unfoldable pub vm_writeback_centisecs : World → ℤ
vm_writeback_centisecs w = or_zero (read_i64 w dirty_writeback)

-- Integer division converts centiseconds to seconds; a negative value reads as 0.
unfoldable pub vm_writeback_seconds : World → ℕ
vm_writeback_seconds w = wrap_u32 (pos_part (vm_writeback_centisecs w) / 100)

-- `saturating_mul(100)` of a u32
abbrev pub centisecs_of : ℕ → ℕ
centisecs_of seconds = if ltb (seconds * 100) (2 ^ 32) then seconds * 100 else 2 ^ 32 - 1

unfoldable pub set_vm_writeback_seconds : Os → ℕ → World → World
set_vm_writeback_seconds os seconds w =
    write_node os dirty_writeback
      (to_string
        (clamp (centisecs_of seconds) vm_writeback_min_centisecs vm_writeback_max_centisecs))
      w

unfoldable pub set_vm_writeback_centisecs : Os → ℤ → World → World
set_vm_writeback_centisecs os centisecs w = write_node os dirty_writeback (to_string_ℤ centisecs) w

unfoldable pub process_purge : Os → World → World
process_purge os w = write_node os drop_caches (text "3") w

-- Every `*kbd_backlight` entry, in sorted order.
unfoldable pub kbd_leds : World → List Text
kbd_leds w = keep (λ name. ends_with name (text "kbd_backlight")) (w.tree.names leds_base)

lit : World → List Text → Bool
lit w [] = false
lit w (led ∷ leds) =
    let later = lit w leds in
    if exists w (led_brightness led)
    then not (text_eq (read w (led_brightness led)) (text "0"))
    else later

unfoldable pub kbd_backlight : World → Bool
unfolding lit
kbd_backlight w = lit w (kbd_leds w)

unfoldable pub switch_led : Os → Bool → Text → World → World
switch_led os enabled led w =
    if enabled
    then write_best_effort os (led_brightness led) (read w (led_max_brightness led)) w
    else write_best_effort os (led_brightness led) (text "0") w

unfoldable pub set_kbd_backlight : Os → Bool → World → World
unfolding switch_led
set_kbd_backlight os enabled w = each (switch_led os enabled) (kbd_leds w) w

unfoldable pub rfkill_blocked : World → Text → Bool
rfkill_blocked w kind =
    contains (run_capture w (text "rfkill" ∷ text "list" ∷ kind ∷ [])) (text "Soft blocked: yes")

unfoldable pub set_rfkill : Os → Text → Bool → World → World
set_rfkill os kind enabled w =
    run_ignored os (text "rfkill" ∷ (if enabled then text "unblock" else text "block") ∷ kind ∷ [])
      w

unfoldable pub bluetooth_enabled : World → Bool
bluetooth_enabled w = not (rfkill_blocked w (text "bluetooth"))

unfoldable pub set_bluetooth_enabled : Os → Bool → World → World
set_bluetooth_enabled os enabled w = set_rfkill os (text "bluetooth") enabled w

unfoldable pub wifi_enabled : World → Bool
wifi_enabled w = not (rfkill_blocked w (text "wifi"))

unfoldable pub set_wifi_enabled : Os → Bool → World → World
set_wifi_enabled os enabled w = set_rfkill os (text "wifi") enabled w
