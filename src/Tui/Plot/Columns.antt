-- ===== src/Tui/Plot/Columns.antt =====
-- Which sample stands in which column, and where the plot is drawn.
use wattwarden.Base.{
  ℕ, zero, suc, ◌+◌, ◌-◌, ◌≤◌, ◌<◌, text, false, Option, none, some, ◌||◌, List, [], ◌∷◌, ◌++◌, ◌≡◌,
  ◌↔◌, arith, All, All-append, All-mono, length, ltb, if◌then◌else◌,
}
use wattwarden.Core.Float.{Float}
use wattwarden.Tui.Layout.{Region}
use wattwarden.Tui.Screen.{Write, write, plain, dark_gray}
use wattwarden.Tui.Plot.{
  sample_index, at, dashes, cells, cell, bar, bars, left_axis, right_axis, draw_bar_graph,
  draw_graph_block, peak_of, graph_scale,
}

-- Column `i` of the plot shows the sample `k` exactly when the sample and the column are equally far
-- from the newest sample and the right edge.
pub sample_index-Aligned :
    (len plot_w i k : ℕ)
    → i < plot_w
    → (sample_index len plot_w i ≡ some k) ↔ ((i + len ≡ k + plot_w) × (k < len))
unfolding sample_index
sample_index-Aligned len plot_w i k room = ground arith

-- A write that begins in the block's columns, in its rows or in the row of the axis below them.
abbrev pub IsInBlock : Region → Write → Type 0
IsInBlock g o = (g.x ≤ o.x) × (o.x < g.x + g.w) × (g.y ≤ o.y) × (o.y ≤ g.y + g.h)

All-four :
    (P : Write → Type 0) (us vs ws xs : List Write)
    → All P us
    → All P vs
    → All P ws
    → All P xs
    → All P (us ++ vs ++ ws ++ xs)
All-four P us vs ws xs a b c d =
    All-append P (us ++ vs ++ ws) xs (All-append P (us ++ vs) ws (All-append P us vs a b) c) d

module _ {F : Type 0} (float : Float F) where
  cell-IsInBlock :
      (g : Region) (x dots k : ℕ)
      → g.x ≤ x
      → x < g.x + g.w
      → k < g.h
      → All (IsInBlock g) (cell float x (g.y + g.h - 1) g.h dots k)
  cell-IsInBlock g x dots k left right low = ground arith

  cells-IsInBlock :
      (g : Region) (x dots n k : ℕ)
      → g.x ≤ x
      → x < g.x + g.w
      → n + k ≤ g.h
      → All (IsInBlock g) (cells float x (g.y + g.h - 1) g.h dots n k)
  unfolding cells
  cells-IsInBlock g x dots zero k left right low = tt
  cells-IsInBlock g x dots (suc n) k left right low =
      All-append (IsInBlock g) (cell float x (g.y + g.h - 1) g.h dots k) _
        (cell-IsInBlock g x dots k left right (omega (arith, low)))
        (cells-IsInBlock g x dots n (suc k) left right (omega (arith, low)))

  bar-IsInBlock :
      (g : Region) (x : ℕ) (top : F) (o : Option F)
      → g.x ≤ x
      → x < g.x + g.w
      → All (IsInBlock g) (bar float x (g.y + g.h - 1) g.h top o)
  bar-IsInBlock g x top none left right = tt
  bar-IsInBlock g x top (some v) left right = cells-IsInBlock g x _ g.h 0 left right (omega arith)

  bars-IsInBlock :
      (g : Region) (history : List F) (top : F) (plot_w n i : ℕ)
      → n + i + 1 < g.w + 1
      → All (IsInBlock g) (bars float g history top plot_w n i)
  unfolding bars
  bars-IsInBlock g history top plot_w zero i room = tt
  bars-IsInBlock g history top plot_w (suc n) i room =
      All-append (IsInBlock g)
        (bar float (g.x + 1 + i) (g.y + g.h - 1) g.h top
          (at history (sample_index (length history) plot_w i)))
        _
        (bar-IsInBlock g (g.x + 1 + i) top (at history (sample_index (length history) plot_w i))
          (omega arith) (omega (arith, room)))
        (bars-IsInBlock g history top plot_w n (suc i) (omega (arith, room)))

  left_axis-IsInBlock :
      (g : Region) (n k : ℕ) → 1 ≤ g.w → n + k ≤ g.h → All (IsInBlock g) (left_axis float g n k)
  unfolding left_axis
  left_axis-IsInBlock g zero k wide low = tt
  left_axis-IsInBlock g (suc n) k wide low = (
    (omega arith, omega (arith, wide), omega (arith, low), omega (arith, low)),
    left_axis-IsInBlock g n (suc k) wide (omega (arith, low)),
  )

  right_axis-IsInBlock :
      (g : Region) (top step : F) (n k : ℕ)
      → 12 ≤ g.w
      → n + k ≤ g.h
      → All (IsInBlock g) (right_axis float g top step n k)
  unfolding right_axis
  right_axis-IsInBlock g top step zero k wide low = tt
  right_axis-IsInBlock g top step (suc n) k wide low = (
    (omega (arith, wide), omega (arith, wide), omega (arith, low), omega (arith, low)),
    (
      (omega (arith, wide), omega (arith, wide), omega (arith, low), omega (arith, low)),
      right_axis-IsInBlock g top step n (suc k) wide (omega (arith, low)),
    ),
  )

  draw_bar_graph-IsInBlock :
      (g : Region) (history : List F) (top : F)
      → 34 ≤ g.w
      → 3 ≤ g.h
      → All (IsInBlock g) (draw_bar_graph float g history top)
  unfolding draw_bar_graph
  draw_bar_graph-IsInBlock g history top wide high =
      let room : (ltb g.w 34 || ltb g.h 3) ≡ false = ground (arith, wide, high) in
      let n : ℕ = g.w - 14 in
      let step = if ltb 1 g.h then float.div top (float.of_nat (g.h - 1)) else float.of_nat 1 in
      let axis = left_axis-IsInBlock g g.h 0 (omega (arith, wide)) (omega arith) in
      let shown = bars-IsInBlock g history top n n 0 (omega (arith, wide)) in
      let scale = right_axis-IsInBlock g top step g.h 0 (omega (arith, wide)) (omega arith) in
      let corner : List Write =
        write g.x (g.y + g.h) (text "└" ++ dashes n) (plain dark_gray) ∷ [] in
      rw room (
        All-four (IsInBlock g) (left_axis float g g.h 0) corner (bars float g history top n n 0)
          (right_axis float g top step g.h 0) axis
          ((omega arith, omega (arith, wide), omega arith, omega arith), tt) shown scale)

  -- Every write of the plot begins in the columns of its block and between the caption's row and the
  -- axis, two rows more than the bars have, whatever the samples are.
  pub draw_graph_block-IsInBlock :
      (history : List F) (g : Region)
      → 34 ≤ g.w
      → 3 ≤ g.h
      → All (IsInBlock (record g { h = g.h + 1 })) (draw_graph_block float history g)
  unfolding draw_graph_block
  draw_graph_block-IsInBlock history g wide high = (
    (omega arith, omega (arith, wide), omega arith, omega arith),
    All-mono (IsInBlock (record g { y = g.y + 1 })) (IsInBlock (record g { h = g.h + 1 }))
        (λ o k. (k.0, k.1, omega (arith, k), omega (arith, k))) _
        (draw_bar_graph-IsInBlock (record g { y = g.y + 1 }) history
          (graph_scale float (peak_of float (float.of_nat 0) history)) wide high),
  )
