-- ===== src/Tui/Line.antt =====
-- crates/wattwarden-tui/src/ui.rs: the text of one row of the menu and of the summary.
pub mod Width
use wattwarden.Base.{
  ℕ, zero, suc, ◌+◌, ◌-◌, ◌/◌, min, max, Text, text, Bool, true, false, List, [], ◌∷◌, ◌++◌, length,
  take, leb, ◌==◌, clamp, if◌then◌else◌, to_string, ℤ, pos, negsuc,
}
use wattwarden.Core.Float.{Float}

-- `format!("{watts:.1}")` is an operation of the floats.
unfoldable pub summary_line : {F : Type 0} → Float F → Text → ℕ → Bool → Text → F → Text
summary_line float os battery_pct charging est watts =
    text "OS: "
    ++ os
    ++ text " | Battery: "
    ++ to_string battery_pct
    ++ text "% ("
    ++ (if charging then text "Charging" else text "Discharging")
    ++ text ") | Est: "
    ++ est
    ++ text " | Power: "
    ++ float.one_decimal watts
    ++ text "W"

unfoldable pub display_bool : Bool → Text
display_bool true = text "[ACTIVE]"
display_bool false = text "[OFF]"

unfoldable pub format_number : ℤ → Text
format_number (pos zero) = text "[N/A]"
format_number (pos (suc n)) = text "[" ++ to_string (suc n) ++ text "]"
format_number (negsuc n) = text "[N/A]"

unfoldable pub fit : Text → ℕ → Text
fit s w = if leb (length s) w then s else if leb w 3 then take w s else take (w - 3) s ++ text "..."

-- `" ".repeat(n)`
abbrev pub blanks : ℕ → Text
blanks zero = []
blanks (suc n) = b' ' ∷ blanks n

-- `{:<w$}` and `{:>w$}` of `format!`
abbrev pub pad_right : ℕ → Text → Text
pad_right w s = s ++ blanks (w - length s)

abbrev pub pad_left : ℕ → Text → Text
pad_left w s = blanks (w - length s) ++ s

abbrev pub value_width : ℕ → ℕ
value_width menu_w = min (clamp (menu_w / 3) 5 15) (menu_w - 1)

abbrev pub name_width : ℕ → Text → ℕ
name_width menu_w prefix = max (menu_w - (min (length prefix) menu_w + value_width menu_w + 1)) 1

unfoldable pub menu_line : ℕ → Text → Text → Text → Text
unfolding fit
menu_line menu_w prefix name value =
    let name_w = name_width menu_w prefix in
    let val_w = value_width menu_w in
    let line =
      prefix
      ++ (pad_right name_w (fit name name_w) ++ (text " " ++ pad_left val_w (fit value val_w))) in
    if menu_w == 0 then [] else take menu_w line
