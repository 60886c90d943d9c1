-- ===== src/Tests/Screens.antt =====
-- The layout and the menu of a terminal.
use wattwarden.Base.{◌+◌, ◌≤◌, ◌<◌, Text, text, false, some, List, [], ◌∷◌, ◌≡◌, refl, arith, All}
use wattwarden.Tui.Menu.{ActionItem, header, cores, turbo, item_at}
use wattwarden.Tui.Line.{menu_line}
use wattwarden.Tui.Layout.{Region, layout, split_vertical}
use wattwarden.Tui.Layout.Fits.{IsLayout, layout_fits}
use wattwarden.Tui.Screen.{RowInfo, scroll, thumb}
use wattwarden.Tui.Plot.{draw_graph_block, graph_scale}
use wattwarden.Tui.Plot.Columns.{IsInBlock, draw_graph_block-IsInBlock}
use wattwarden.Tests.Laptop.{milli}
use wattwarden.Tui.Screen.Track.{scroll-thumb}

split_vertical-40 : split_vertical 40 ≡ (20, 17)
unfolding split_vertical
split_vertical-40 = refl

menu_line-golden :
    menu_line 40 (text " > ") (text "Charge Limit") (text "[80%]")
    ≡ text " > Charge Limit                    [80%]"
unfolding menu_line
menu_line-golden = refl

layout_fits_example : IsLayout 80 24 (layout 80 24)
layout_fits_example = layout_fits 80 24 (omega arith)

scroll-thumb_example :
    (scroll 25 10 3 ≤ 25)
    × (25 < scroll 25 10 3 + 10)
    × (scroll 25 10 3 + 10 ≤ 30)
    × (1 ≤ (thumb 10 30 (scroll 25 10 3)).0)
    × ((thumb 10 30 (scroll 25 10 3)).1 + (thumb 10 30 (scroll 25 10 3)).0 ≤ 10)
scroll-thumb_example =
    scroll-thumb 25 10 30 3 (omega arith) (omega arith) (omega arith) (omega arith)

abbrev items : List ActionItem
items = header (text "CPU") ∷ cores ∷ turbo ∷ []

abbrev row : Text → Text → RowInfo
row name value = record { name = name; value = value; active = false }

abbrev rows : List RowInfo
rows =
    row (text "CPU") [] ∷ row (text "Cores") (text "[8]") ∷ row (text "Turbo") (text "[OFF]") ∷ []

abbrev column : Region
column = record { x = 2; y = 5; w = 40; h = 1 }

at_two : item_at items 2 ≡ some turbo
unfolding item_at
at_two = refl

draw_graph_block-IsInBlock_example :
    All
      (IsInBlock (record { x = 2; y = 5; w = 40; h = 6 }))
      (draw_graph_block milli (4000 ∷ 8000 ∷ []) (record { x = 2; y = 5; w = 40; h = 5 }))
draw_graph_block-IsInBlock_example =
    draw_graph_block-IsInBlock milli (4000 ∷ 8000 ∷ []) (record { x = 2; y = 5; w = 40; h = 5 })
      (omega arith) (omega arith)

-- A burst of 16 W makes the scale grow.
scale_of_16 : graph_scale milli 16000 ≡ 20000
unfolding graph_scale
scale_of_16 = refl
