-- ===== src/Tui/Plot.antt =====
-- crates/wattwarden-tui/src/ui.rs: the plot of the power, as the list of its writes.
pub mod Columns
use wattwarden.Base.{
  ℕ, zero, suc, ◌+◌, ◌-◌, ◌*◌, min, Text, text, Bool, true, false, ◌||◌, Option, none, some, List,
  [], ◌∷◌, ◌++◌, length, find_first, leb, ltb, if◌then◌else◌,
}
use wattwarden.Core.Float.{Float}
use wattwarden.Tui.Line.{pad_left}
use wattwarden.Tui.Layout.{Region}
use wattwarden.Tui.Screen.{Color, red, yellow, green, dark_gray, Write, write, plain, strong}

-- The sample that column `i` of the plot shows, of the `len` that there are; the newest ones stand at
-- the right edge.
unfoldable pub sample_index : ℕ → ℕ → ℕ → Option ℕ
sample_index len plot_w i =
    let index =
      if ltb plot_w len
      then some (len - plot_w + i)
      else if ltb i (plot_w - len)
      then none
      else some (i - (plot_w - len)) in
    within index
  where
    within : Option ℕ → Option ℕ
    within none = none
    within (some k) = if leb len k then none else some k

abbrev value_at {ℓ} : {A : Type ℓ} → List A → ℕ → Option A
value_at [] n = none
value_at (x ∷ xs) zero = some x
value_at (x ∷ xs) (suc n) = value_at xs n

-- `data_list[data_idx]`, where there is an index.
abbrev pub at {ℓ} : {A : Type ℓ} → List A → Option ℕ → Option A
at xs none = none
at xs (some k) = value_at xs k

-- The characters of a cell that is filled to so many eighths.
abbrev marks : List Text
marks =
    text " "
    ∷ text " "
    ∷ text "▂"
    ∷ text "▃"
    ∷ text "▄"
    ∷ text "▅"
    ∷ text "▆"
    ∷ text "▇"
    ∷ text "█"
    ∷ []

abbrev or_none : Option Text → Text
or_none none = []
or_none (some s) = s

abbrev block : ℕ → Text
block n = or_none (value_at marks n)

-- `"─".repeat(n)`
abbrev pub dashes : ℕ → Text
dashes zero = []
dashes (suc n) = text "─" ++ dashes n

module _ {F : Type 0} (float : Float F) where
  open float use {of_nat, mul, div, le, lt, greatest, as_usize, one_decimal, no_decimals}

  -- The ends of the scale that are used.
  abbrev scales : List F
  scales =
      of_nat 5
      ∷ of_nat 10
      ∷ of_nat 15
      ∷ of_nat 20
      ∷ of_nat 25
      ∷ of_nat 30
      ∷ of_nat 40
      ∷ of_nat 50
      ∷ of_nat 60
      ∷ of_nat 80
      ∷ of_nat 100
      ∷ of_nat 120
      ∷ of_nat 150
      ∷ of_nat 200
      ∷ of_nat 300
      ∷ of_nat 500
      ∷ []

  abbrev or_last : Option F → F
  or_last none = of_nat 500
  or_last (some x) = x

  unfoldable pub graph_scale : F → F
  graph_scale peak_watts =
      if le peak_watts (of_nat 0)
      then of_nat 15
      else or_last (find_first (λ step. le (mul peak_watts (float.ratio 12 10)) step) scales)

  -- `fold(0.0, f64::max)`
  peak_of : F → List F → F
  peak_of x [] = x
  peak_of x (y ∷ ys) = peak_of (greatest x y) ys

  unfoldable pub band_color : F → Color
  band_color r =
      if le (div (of_nat 2) (of_nat 3)) r
      then red
      else if le (div (of_nat 1) (of_nat 3)) r
      then yellow
      else green

  -- `clamp(0.0, 1.0)`
  abbrev unit : F → F
  unit r = if lt r (of_nat 0) then of_nat 0 else if lt (of_nat 1) r then of_nat 1 else r

  -- One cell of a bar, the one `k` rows above the axis.
  abbrev cell : ℕ → ℕ → ℕ → ℕ → ℕ → List Write
  cell x bottom height total_dots k =
      let dots = min (total_dots - k * 8) 8 in
      if ltb 0 dots
      then write x (bottom - k) (block dots)
          (plain (band_color (div (of_nat (k + 1)) (of_nat height))))
        ∷ []
      else []

  -- The cells of `n` rows from the `k`th on.
  cells : ℕ → ℕ → ℕ → ℕ → ℕ → ℕ → List Write
  unfolding band_color
  cells x bottom height total_dots zero k = []
  cells x bottom height total_dots (suc n) k =
      cell x bottom height total_dots k ++ cells x bottom height total_dots n (suc k)

  abbrev bar : ℕ → ℕ → ℕ → F → Option F → List Write
  bar x bottom height graph_max none = []
  bar x bottom height graph_max (some value) =
      cells x bottom height (as_usize (mul (unit (div value graph_max)) (of_nat (height * 8))))
        height 0

  -- The bars of `n` columns from the `i`th on.
  bars : Region → List F → F → ℕ → ℕ → ℕ → List Write
  unfolding cells sample_index
  bars g history graph_max plot_w zero i = []
  bars g history graph_max plot_w (suc n) i =
      bar (g.x + 1 + i) (g.y + g.h - 1) g.h graph_max
        (at history (sample_index (length history) plot_w i))
      ++ bars g history graph_max plot_w n (suc i)

  left_axis : Region → ℕ → ℕ → List Write
  left_axis g zero k = []
  left_axis g (suc n) k =
      write g.x (g.y + g.h - 1 - k) (text "│") (plain dark_gray) ∷ left_axis g n (suc k)

  right_axis : Region → F → F → ℕ → ℕ → List Write
  unfolding band_color
  right_axis g graph_max step zero k = []
  right_axis g graph_max step (suc n) k =
      let label = mul (of_nat k) step in
      let y = g.y + g.h - 1 - k in
      write (g.x + g.w - 12) y (text "│ ") (plain dark_gray)
      ∷ write (g.x + g.w - 10) y (pad_left 4 (one_decimal label) ++ text " W")
          (plain (band_color (div label graph_max)))
      ∷ right_axis g graph_max step n (suc k)

  unfoldable pub draw_bar_graph : Region → List F → F → List Write
  unfolding bars left_axis right_axis
  draw_bar_graph g history graph_max =
      let plot_w = g.w - 14 in
      let step = if ltb 1 g.h then div graph_max (of_nat (g.h - 1)) else of_nat 1 in
      if ltb g.w 34 || ltb g.h 3
      then []
      else left_axis g g.h 0
        ++ (write g.x (g.y + g.h) (text "└" ++ dashes plot_w) (plain dark_gray) ∷ [])
        ++ bars g history graph_max plot_w plot_w 0
        ++ right_axis g graph_max step g.h 0

  -- The caption takes the first row, and the bars stand one row lower.
  unfoldable pub draw_graph_block : List F → Region → List Write
  unfolding peak_of graph_scale draw_bar_graph
  draw_graph_block history g =
      let peak = peak_of (of_nat 0) history in
      let scale = graph_scale peak in
      write g.x g.y
        (text " POWER DRAW - scale "
          ++ no_decimals scale
          ++ text "W - peak "
          ++ one_decimal peak
          ++ text "W ")
        (strong dark_gray)
      ∷ draw_bar_graph (record g { y = g.y + 1 }) history scale
