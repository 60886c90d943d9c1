-- ===== src/Backlight.antt =====
-- crates/wattwarden-platform/src/linux/backlight.rs. Neither method returns an error.
pub mod Scaled
use wattwarden.Base.{
  ℕ, zero, suc, ◌*◌, ◌/◌, Text, text, is_empty, Bool, true, false, Option, none, some, List, [],
  ◌∷◌, ◌++◌, ◌==◌, ltb_ℤ, ℤ, pos, negsuc, pos_part, mul_i64, div_i64, clamp_ℤ, clamp, if◌then◌else◌,
  each, trim, split, trim_end_matches, parse_i64, to_string, to_string_ℤ,
}
use wattwarden.Sysfs.{
  World, Os, max_brightness, brightness, backlight_base, read_i64, write_best_effort, run_capture,
  run_ignored,
}

abbrev pub fallback_brightness_percent : ℕ
fallback_brightness_percent = 100

-- The controller has no state of its own.
pub data LinuxBacklight : Type 0 where
  backlight : LinuxBacklight

unfoldable pub devices : World → List Text
devices w = w.tree.names backlight_base

abbrev controller : List Text → Option LinuxBacklight
controller [] = none
controller (d ∷ ds) = some backlight

-- `with_root`: `InterfaceNotFound` is `none`.
unfoldable pub with_root : World → Option LinuxBacklight
with_root w = controller (devices w)

abbrev or_zero : Option ℤ → ℤ
or_zero none = pos 0
or_zero (some v) = v

unfoldable pub max_of : World → Text → ℤ
max_of w device = or_zero (read_i64 w (max_brightness device))

-- `(cur * 100) / max`, for a positive maximum.
percent_of : ℤ → ℕ → ℕ
percent_of cur max = clamp_ℤ (div_i64 (mul_i64 cur (pos 100)) max) 0 255

-- The first device with a positive maximum.
device_percent : World → List Text → Option ℕ
unfolding percent_of
device_percent w [] = none
device_percent w (d ∷ ds) =
    let later = device_percent w ds in
    if ltb_ℤ (pos 0) (max_of w d)
    then some (percent_of (or_zero (read_i64 w (brightness d))) (pos_part (max_of w d)))
    else later

percent_field : Option ℤ → ℕ
percent_field none = fallback_brightness_percent
percent_field (some v) = clamp_ℤ v 0 255

-- The fourth field of `brightnessctl -m`.
parse_machine_readable : List Text → ℕ
unfolding percent_field
parse_machine_readable (a ∷ b ∷ c ∷ d ∷ rest) =
    percent_field (parse_i64 (trim (trim_end_matches (λ x. x == b'%') d)))
parse_machine_readable parts = fallback_brightness_percent

tool_percent : Text → ℕ
unfolding parse_machine_readable
tool_percent out =
    if is_empty out then fallback_brightness_percent else parse_machine_readable (split b',' out)

abbrev or_tool : Option ℕ → ℕ → ℕ
or_tool (some p) tool = p
or_tool none tool = tool

unfoldable pub brightness_percent : World → ℕ
unfolding device_percent tool_percent
brightness_percent w =
    or_tool (device_percent w (devices w))
      (tool_percent (run_capture w (text "brightnessctl" ∷ text "-m" ∷ [])))

unfoldable pub write_device : Os → ℕ → Text → World → World
write_device os p device w =
    if ltb_ℤ (pos 0) (max_of w device)
    then write_best_effort os (brightness device)
        (to_string_ℤ (div_i64 (mul_i64 (pos p) (max_of w device)) 100)) w
    else w

unfoldable pub set_brightness_percent : Os → ℕ → World → World
unfolding write_device
set_brightness_percent os percent w =
    let p = clamp percent 1 100 in
    run_ignored os (text "brightnessctl" ∷ text "set" ∷ (to_string p ++ text "%") ∷ [])
      (each (write_device os p) (devices w) w)
