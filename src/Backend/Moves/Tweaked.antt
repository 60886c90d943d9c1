-- ===== src/Backend/Moves/Tweaked.antt =====
-- The kernel tweaks and the keyboard backlight as moves.
use wattwarden.Base.{
  All, All-append, ℕ, Text, text, Bool, List, [], ◌∷◌, arith, map, if◌then◌else◌, each, clamp,
  clamp_bounds,
}
use wattwarden.Sysfs.{
  World, Os, Node, Bus, usb, pci, power_control, iwlwifi_power_save, snd_hda_power_save,
  snd_hda_power_save_controller, nmi_watchdog, dirty_writeback, led_brightness, exists, usb_devices,
  pci_devices,
}
use wattwarden.Sysfs.Issues.{
  Issues, stop, Issues-trans, Issues-write, Issues-run, Issues-if, Issues-each,
}
use wattwarden.Tweaks.{
  write_node, control_nodes, wifi_interfaces, set_interface, set_wifi_power_save,
  set_audio_power_save, set_autosuspend, set_nmi_watchdog, set_vm_writeback_seconds, centisecs_of,
  kbd_leds, switch_led, set_kbd_backlight,
}
use wattwarden.Backend.{LinuxBackend}
use wattwarden.Backend.Moves.{
  IsTweak, switched, writeback, wifi, IsSwitchNode, is_control, is_iwlwifi, is_audio, is_controller,
  is_watchdog, is_led, tweak, Moves, one,
}

module _ (os : Os) where
  write_node-IsTweak :
      (p : Node) (s : Text) (w : World) → IsSwitchNode p → Issues os IsTweak w (write_node os p s w)
  unfolding write_node
  write_node-IsTweak p s w h = Issues-if (exists w p) (Issues-write p s (switched p s h)) stop

  set_controls :
      (s : Text) (ps : List Node) (w : World)
      → All IsSwitchNode ps
      → Issues os IsTweak w (each (λ p. write_node os p s) ps w)
  set_controls s [] w h = stop
  set_controls s (p ∷ ps) w (h, hs) =
      Issues-trans (write_node-IsTweak p s w h) (set_controls s ps _ hs)

  controls : (w : World) → All IsSwitchNode (control_nodes w)
  unfolding control_nodes
  controls w =
      All-append IsSwitchNode (map (power_control usb) (w.tree.names usb_devices))
        (map (power_control pci) (w.tree.names pci_devices)) (on_bus usb (w.tree.names usb_devices))
        (on_bus pci (w.tree.names pci_devices))
    where
      on_bus : (bus : Bus) (names : List Text) → All IsSwitchNode (map (power_control bus) names)
      on_bus bus [] = tt
      on_bus bus (n ∷ ns) = (is_control bus n, on_bus bus ns)

module _ (os : Os) (b : LinuxBackend) where
  pub set_wifi_power_save-Moves :
      (on : Bool) (w : World) → Moves os b w (set_wifi_power_save os on w)
  unfolding set_wifi_power_save set_interface
  set_wifi_power_save-Moves on w =
      let v = write_node os iwlwifi_power_save (if on then text "Y" else text "N") w in
      one (
        tweak (
          Issues-trans (write_node-IsTweak os iwlwifi_power_save _ w is_iwlwifi) (
            Issues-each (set_interface os (if on then text "on" else text "off"))
              (λ iface u. Issues-run _ (wifi _)) (wifi_interfaces v) v)))

  pub set_audio_power_save-Moves :
      (on : Bool) (w : World) → Moves os b w (set_audio_power_save os on w)
  unfolding set_audio_power_save
  set_audio_power_save-Moves on w = one (
      tweak (
        Issues-trans (write_node-IsTweak os snd_hda_power_save _ w is_audio)
          (write_node-IsTweak os snd_hda_power_save_controller _ _ is_controller)))

  pub set_autosuspend-Moves : (on : Bool) (w : World) → Moves os b w (set_autosuspend os on w)
  unfolding set_autosuspend
  set_autosuspend-Moves on w = one (
      tweak (
        set_controls os (if on then text "auto" else text "on") (control_nodes w) w
          (controls os w)))

  pub set_nmi_watchdog-Moves : (on : Bool) (w : World) → Moves os b w (set_nmi_watchdog os on w)
  unfolding set_nmi_watchdog
  set_nmi_watchdog-Moves on w = one (tweak (write_node-IsTweak os nmi_watchdog _ w is_watchdog))

  pub set_vm_writeback_seconds-Moves :
      (s : ℕ) (w : World) → Moves os b w (set_vm_writeback_seconds os s w)
  unfolding set_vm_writeback_seconds write_node
  set_vm_writeback_seconds-Moves s w =
      let inside = clamp_bounds (centisecs_of s) 100 6000 (omega arith) in
      one (
        tweak (
          Issues-if (exists w dirty_writeback)
            (Issues-write dirty_writeback _
              (writeback (clamp (centisecs_of s) 100 6000) inside.0 inside.1))
            stop))

  pub set_kbd_backlight-Moves : (on : Bool) (w : World) → Moves os b w (set_kbd_backlight os on w)
  unfolding set_kbd_backlight switch_led
  set_kbd_backlight-Moves on w = one (
      tweak (
        Issues-each (switch_led os on)
          (λ led v.
            Issues-if on (Issues-write (led_brightness led) _ (switched _ _ (is_led led)))
              (Issues-write (led_brightness led) _ (switched _ _ (is_led led))))
          (kbd_leds w) w))
