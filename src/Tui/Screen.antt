-- ===== src/Tui/Screen.antt =====
-- crates/wattwarden-tui/src/ui.rs and RowInfo of app.rs: what is written on the screen. A drawing is
-- the list of the writes in their order; the buffer that they go to is left out.
pub mod Track
pub mod Rows
use wattwarden.Base.{
  ℕ, zero, suc, ◌+◌, ◌-◌, ◌*◌, ◌/◌, min, max, Text, text, Bool, true, false, Option, none, some,
  List, [], ◌∷◌, ◌++◌, length, take, ltb, leb, ◌==◌, if◌then◌else◌,
}
use wattwarden.Tui.Menu.{ActionItem, header, item_at}
use wattwarden.Tui.Line.{fit, blanks, menu_line}
use wattwarden.Tui.Layout.{Region}

pub record RowInfo : Type 0 where
  pub name : Text
  pub value : Text
  pub active : Bool

-- The colours of ratatui that are used here.
pub data Color : Type 0 where
  black red green yellow blue cyan white dark_gray : Color

pub record Style : Type 0 where
  pub fg : Option Color
  pub bg : Option Color
  pub bold : Bool

pub record Write : Type 0 where
  pub x : ℕ
  pub y : ℕ
  pub content : Text
  pub style : Style

abbrev pub write : ℕ → ℕ → Text → Style → Write
write x y content style = record { x = x; y = y; content = content; style = style }

abbrev pub plain : Color → Style
plain c = record { fg = some c; bg = none; bold = false }

abbrev pub strong : Color → Style
strong c = record { fg = some c; bg = none; bold = true }

abbrev pub strong_on : Color → Color → Style
strong_on c ground_color = record { fg = some c; bg = some ground_color; bold = true }

-- A write on a screen of `w` by `h`, cut at the right edge; outside it is not made.
unfoldable pub set_str : ℕ → ℕ → Write → Option Write
set_str w h o =
    if leb w o.x
    then none
    else if leb h o.y
    then none
    else some (write o.x o.y (take (w - o.x) o.content) o.style)

-- The offset that brings the selected row into view.
unfoldable pub scroll : ℕ → ℕ → ℕ → ℕ
scroll selected visible_items offset =
    let up = if ltb selected offset then selected else offset in
    if leb (up + visible_items) selected then selected - visible_items + 1 else up

-- The height and the position of the scroll bar's thumb.
unfoldable pub thumb : ℕ → ℕ → ℕ → ℕ × ℕ
thumb visible_items count offset =
    let height = max (visible_items * visible_items / count) 1 in
    (height, offset * (visible_items - height) / max (count - visible_items) 1)

abbrev pub row_at : List RowInfo → ℕ → Option RowInfo
row_at [] n = none
row_at (row ∷ rows) zero = some row
row_at (row ∷ rows) (suc n) = row_at rows n

abbrev row_style : Bool → Bool → Style
row_style true active = strong_on blue white
row_style false true = strong green
row_style false false = plain white

abbrev pub title_of : ActionItem → Option Text
title_of (header title) = some title
title_of item = none

-- A header, or a row with its marker.
abbrev write_row : Region → Bool → ℕ → Option Text → RowInfo → Write
write_row menu is_selected y (some title) row = write menu.x y (fit title menu.w) (strong yellow)
write_row menu is_selected y none row =
    let prefix = if is_selected then text " > " else text "   " in
    write menu.x y (menu_line menu.w prefix row.name row.value) (row_style is_selected row.active)

-- One row of the menu, at the position `idx` of the list, on the screen's row `y`.
unfoldable draw_row : Region → ℕ → ℕ → ℕ → ActionItem → RowInfo → Write
draw_row menu selected idx y item row = write_row menu (idx == selected) y (title_of item) row

abbrev on_rows :
    (ActionItem → RowInfo → Write) → Option ActionItem → Option RowInfo → List Write → List Write
on_rows draw (some item) (some row) rest = draw item row ∷ rest
on_rows draw item row rest = []

-- The rows from the `i`th on, `n` of them at most.
unfoldable pub draw_rows : Region → List ActionItem → List RowInfo → ℕ → ℕ → ℕ → ℕ → List Write
unfolding draw_row item_at
draw_rows menu items rows selected offset zero i = []
draw_rows menu items rows selected offset (suc n) i =
    on_rows (draw_row menu selected (offset + i) (menu.y + i)) (item_at items (offset + i))
      (row_at rows (offset + i)) (draw_rows menu items rows selected offset n (suc i))

-- `n` cells of the bar in column `x` from row `y` down.
abbrev column : Text → Color → ℕ → ℕ → ℕ → List Write
column mark color x y zero = []
column mark color x y (suc n) = write x y mark (plain color) ∷ column mark color x (suc y) n

unfoldable scrollbar : Region → ℕ → ℕ → List Write
unfolding thumb
scrollbar menu count offset =
    let bar_x = menu.x + menu.w in
    let (height, pos) = thumb menu.h count offset in
    if ltb menu.h count
    then column (text "│") dark_gray bar_x menu.y menu.h
      ++ column (text "█") white bar_x (menu.y + pos) height
    else []

-- The indicators are 20 bytes long, by which the source centres them.
abbrev indicator : Region → Text → ℕ → List Write
indicator menu msg y = write (menu.x + (menu.w - 20) / 2) y msg (strong yellow) ∷ []

abbrev above : Region → ℕ → List Write
above menu offset =
    if ltb 0 offset then indicator menu (text " ▲ MORE ABOVE ▲ ") (menu.y - 1) else []

abbrev below : Region → ℕ → ℕ → List Write
below menu count offset =
    if ltb (offset + menu.h) count
    then indicator menu (text " ▼ MORE BELOW ▼ ") (menu.y + menu.h)
    else []

-- The offset afterwards and the writes; the region has at least one row.
unfoldable pub draw_menu : List ActionItem → List RowInfo → ℕ → ℕ → Region → ℕ × List Write
unfolding scroll draw_rows scrollbar
draw_menu items rows selected before menu =
    let offset = scroll selected menu.h before in
    let count = length items in
    (
      offset,
      above menu offset
          ++ draw_rows menu items rows selected offset menu.h 0
          ++ scrollbar menu count offset
          ++ below menu count offset,
    )
