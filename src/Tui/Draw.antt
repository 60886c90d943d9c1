-- ===== src/Tui/Draw.antt =====
-- crates/wattwarden-tui/src/ui.rs: the question before Extreme Mode, and the whole screen.
pub mod Shown
use wattwarden.Base.{
  ℕ, zero, suc, ◌+◌, ◌-◌, ◌/◌, min, max, Text, text, Bool, true, false, Option, none, some, List,
  [], ◌∷◌, ◌++◌, length, leb, ltb, ◌==◌, if◌then◌else◌, filter_map,
}
use wattwarden.Core.Error.{unwrap_or}
use wattwarden.Core.Float.{Float}
use wattwarden.Battery.{battery_percentage, is_charging}
use wattwarden.Battery.Power.{time_remaining, consumption_watts}
use wattwarden.Tui.App.{Host, App, Message, toast_message}
use wattwarden.Tui.Line.{summary_line, blanks}
use wattwarden.Tui.Layout.{Region, Layout, layout}
use wattwarden.Tui.Screen.{
  Style, Color, black, red, yellow, cyan, white, dark_gray, Write, write, plain, strong, strong_on,
  set_str, draw_menu,
}
use wattwarden.Tui.Plot.{dashes, draw_graph_block}
use wattwarden.Tui.Rows.{RowCache, refresh_rows_if_stale}

abbrev ascii_logo : List Text
ascii_logo =
    text " __        ___  _____ _______        ___    ____  ____  _____ _   _ "
    ∷ text " \\ \\      / / \\|_   _|_   _\\ \\      / / \\  |  _ \\|  _ \\| ____| \\ | |"
    ∷ text "  \\ \\ /\\ / / _ \\ | |   | |  \\ \\ /\\ / / _ \\ | |_) | | | |  _| |  \\| |"
    ∷ text "   \\ V  V / ___ \\| |   | |   \\ V  V / ___ \\|  _ <| |_| | |___| |\\  |"
    ∷ text "    \\_/\\_/_/   \\_\\_|   |_|    \\_/\\_/_/   \\_\\_| \\_\\____/|_____|_| \\_|"
    ∷ text "                                                                    "
    ∷ []

abbrev lines_from : ℕ → ℕ → Style → List Text → List Write
lines_from x y style [] = []
lines_from x y style (line ∷ lines) = write x y line style ∷ lines_from x (suc y) style lines

abbrev draw_banner : Option Region → List Write
draw_banner none = []
draw_banner (some b) =
    if leb 6 b.h
    then lines_from b.x b.y (strong cyan) ascii_logo
    else write b.x b.y (text "WATTWARDEN") (strong cyan) ∷ []

abbrev bold_text : Style
bold_text = record { fg = none; bg = none; bold = true }

-- In the middle of the screen's columns.
abbrev centered : ℕ → ℕ → Text → Style → Write
centered w y s style = write ((w - length s) / 2) y s style

abbrev draw_summary : ℕ → Text → Option ℕ → List Write
draw_summary w line none = []
draw_summary w line (some y) = centered w y line bold_text ∷ []

abbrev draw_plot : {F : Type 0} → Float F → List F → Option Region → List Write
draw_plot float history none = []
draw_plot float history (some g) = draw_graph_block float history g

abbrev draw_toast : ℕ → ℕ → Option Text → List Write
draw_toast w h none = []
draw_toast w h (some message) =
    centered w (if leb 3 h then h - 3 else h - 1) (text " " ++ message ++ text " ")
      (strong_on black yellow)
    ∷ []

abbrev footer_text : Text
footer_text =
    text "[UP/DOWN] Navigate | [L/R] Adjust | [ENTER] Apply | [R] Restore | "
    ++ text "[+/-] Speed | [Q] Quit"

abbrev draw_footer : Option ℕ → List Write
draw_footer none = []
draw_footer (some y) = write 2 y footer_text (plain dark_gray) ∷ []

-- The first `n` rows of the box from row `y` down.
abbrev backdrop : ℕ → ℕ → ℕ → ℕ → List Write
backdrop x y box_w zero = []
backdrop x y box_w (suc n) =
    write x y (blanks box_w) (record { fg = none; bg = some black; bold = false })
    ∷ backdrop x (suc y) box_w n

abbrev sides : ℕ → ℕ → ℕ → ℕ → List Write
sides x y box_w zero = []
sides x y box_w (suc n) =
    write x y (text "│") (strong_on red black)
    ∷ write (x + box_w - 1) y (text "│") (strong_on red black)
    ∷ sides x (suc y) box_w n

-- A line of the question in row `offset` of the box, where the box has that row; the title is one
-- column further right.
abbrev modal_line : ℕ → ℕ → ℕ → ℕ → ℕ → Text → Style → List Write
modal_line x y box_w box_h offset line style =
    let text_x = x + (box_w - length line) / 2 in
    if leb box_h offset
    then []
    else write (if offset == 1 then text_x + 1 else text_x) (y + offset) line style ∷ []

-- The warning sign is followed by the selector of its coloured form.
abbrev title : Text
title = text "⚠" ++ (0xfe0f ∷ text "  WARNING: EXTREME MODE")

unfoldable pub draw_extreme_modal : ℕ → ℕ → List Write
draw_extreme_modal w h =
    let box_w = max (min 62 w) 3 in
    let box_h = max (min 9 h) 1 in
    let x = (w - box_w) / 2 in
    let y = (h - box_h) / 2 in
    backdrop x y box_w box_h
    ++ (write x y (text "╭" ++ dashes (box_w - 2) ++ text "╮") (strong_on red black) ∷ [])
    ++ sides x (y + 1) box_w (box_h - 2)
    ++ (write x (y + box_h - 1) (text "╰" ++ dashes (box_w - 2) ++ text "╯") (strong_on red black)
        ∷ [])
    ++ modal_line x y box_w box_h 1 title (strong_on yellow black)
    ++ modal_line x y box_w box_h 3 (text "This will minimize all hardware performance.")
        (strong_on white black)
    ++ modal_line x y box_w box_h 4 (text "Press 'R' at any time to restore normal operation.")
        (record { fg = some dark_gray; bg = some black; bold = false })
    ++ modal_line x y box_w box_h 6 (text "[ Y - Confirm ]    [ N - Cancel ]")
        (strong_on yellow black)

-- What of the state only the drawing uses.
pub record View : Type 0 where
  pub cache : RowCache
  pub scroll_offset : ℕ

module _ {F H : Type 0} (float : Float F) (host : Host H) (message_text : Message → Text) where
  abbrev summary_of : App F H → Text
  summary_of app =
      summary_line float (text "Linux")
        (unwrap_or 0 (battery_percentage app.backend.battery app.world))
        (unwrap_or false (is_charging app.backend.battery app.world))
        (unwrap_or (text "N/A") (time_remaining float app.backend.battery app.world))
        (unwrap_or (float.of_nat 0) (consumption_watts float app.backend.battery app.world))

  abbrev message_of : Option Message → Option Text
  message_of none = none
  message_of (some m) = some (message_text m)

  -- The offset and the writes of the menu, if it has a row.
  abbrev menu_part : App F H → RowCache → ℕ → Region → ℕ × List Write
  menu_part app cache offset menu =
      if leb 1 menu.h then draw_menu app.items cache.rows app.selected offset menu else (offset, [])

  abbrev over_menu : ℕ → ℕ → App F H → List Write
  over_menu w h app =
      draw_banner (layout w h).banner
      ++ draw_summary w (summary_of app) (layout w h).summary_y
      ++ draw_plot float app.history (layout w h).graph

  -- These are drawn over the menu.
  abbrev after_menu : ℕ → ℕ → App F H → List Write
  after_menu w h app =
      draw_toast w h (message_of (toast_message host app))
      ++ (if app.confirm_extreme then draw_extreme_modal w h else [])
      ++ draw_footer (layout w h).footer_y

  unfoldable pub draw : ℕ → ℕ → App F H → View → View × List Write
  unfolding draw_extreme_modal
  draw w h app view =
      let cache = refresh_rows_if_stale float host app view.cache in
      let (offset, menu) = menu_part app cache view.scroll_offset (layout w h).menu in
      (
        record { cache = cache; scroll_offset = offset },
        filter_map (set_str w h) (over_menu w h app ++ menu ++ after_menu w h app),
      )
