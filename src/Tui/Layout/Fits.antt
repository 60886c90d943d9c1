-- ===== src/Tui/Layout/Fits.antt =====
-- The blocks stay on the screen and apart from each other.
use wattwarden.Base.{
  ℕ, suc, ◌+◌, ◌-◌, ◌≤◌, ◌<◌, Option, none, some, arith, ◌≡◌, ◌⊎◌, inl, inr, refl, Bool-cases, ◌&&◌,
  leb,
}
use wattwarden.Tui.Layout.{
  Region, Layout, split_vertical, header, summary, footer, bottom, side_by_side, stacked, blocks,
  layout,
}

split_vertical-tiles :
    (n : ℕ)
    → let (p, m) = split_vertical n in
      ((p ≡ 0) × (m ≡ n) × (n < 7)) ⊎ ((3 ≤ p) × (1 ≤ m) × (p + 3 + m ≡ n) × (7 ≤ n))
unfolding split_vertical
split_vertical-tiles n = ground arith

-- A block that is shown reaches neither past the right edge nor past row `limit`.
abbrev IsWithin : ℕ → ℕ → Region → Type 0
IsWithin w limit r = (r.x + r.w ≤ w) × (r.y + r.h ≤ limit)

-- The plot takes its caption, its rows and its axis, above row `limit` and from row `y` on, in
-- columns or rows that the menu leaves free.
abbrev IsPlot : ℕ → ℕ → ℕ → Region → Option Region → Type 0
IsPlot w y limit menu none = Unit
IsPlot w y limit menu (some g) =
    IsWithin w limit g
    × (g.y + g.h + 2 ≤ limit)
    × (y ≤ g.y)
    × (34 ≤ g.w)
    × (3 ≤ g.h)
    × ((menu.x + menu.w ≤ g.x) ⊎ (g.y + g.h + 3 ≤ menu.y))

pub AreBlocks : ℕ → ℕ → ℕ → Region × Option Region → Type 0
AreBlocks w y n (menu, graph) =
    (menu.x + menu.w ≤ w) × (y ≤ menu.y) × (menu.y + menu.h ≤ y + n) × IsPlot w y (y + n) menu graph

side_by_side-AreBlocks : (w y n : ℕ) → 110 ≤ w → 5 ≤ n → AreBlocks w y n (side_by_side w y n)
unfolding side_by_side AreBlocks
side_by_side-AreBlocks w y n wide high = ground arith

stacked-AreBlocks : (w y n : ℕ) → 2 ≤ w → AreBlocks w y n (stacked w y (split_vertical n))
unfolding stacked AreBlocks
stacked-AreBlocks w y n wide = let tiles = split_vertical-tiles n in ground arith

abbrev IsBanner : ℕ → ℕ → Option Region → Type 0
IsBanner w y none = Unit
IsBanner w y (some b) = IsWithin w y b

-- The summary takes a row between the header and row `y`.
abbrev IsSummary : ℕ → ℕ → Option ℕ → Type 0
IsSummary y0 y none = y0 ≡ y
IsSummary y0 y (some row) = (y0 ≡ row) × (row < y)

abbrev IsFooter : ℕ → ℕ → Option ℕ → Type 0
IsFooter h limit none = limit ≡ h
IsFooter h limit (some row) = (suc row ≡ h) × (limit ≤ row)

header-IsBanner :
    (w h : ℕ) → let (y, banner) = header w h in IsBanner w y banner × ((y ≡ 0) ⊎ (y < h))
unfolding header
header-IsBanner w h = ground arith

summary-IsSummary :
    (w h y0 : ℕ)
    → (y0 ≡ 0) ⊎ (y0 < h)
    → let (y, row) = summary w h y0 in IsSummary y0 y row × ((y ≡ 0) ⊎ (y < h))
unfolding summary
summary-IsSummary w h y0 free = ground arith

blocks-AreBlocks : (w y n : ℕ) → 2 ≤ w → AreBlocks w y n (blocks w y n)
unfolding blocks
blocks-AreBlocks w y n wide = elim (Bool-cases (leb 110 w && leb 5 n)) [
  | inl both ↦ rw both (side_by_side-AreBlocks w y n (ground (arith, both)) (ground (arith, both)))
  | inr other ↦ rw other (stacked-AreBlocks w y n wide)
]

-- The screen from above: the header over row `y0`, the summary over row `y`, then the menu and the
-- plot in the `n` rows from `y` on, and the footer in the last row, under them.
pub IsLayout : ℕ → ℕ → Layout → Type 0
IsLayout w h l =
    (y0 y n limit : ℕ) × IsBanner w y0 l.banner
    × IsSummary y0 y l.summary_y
    × AreBlocks w y n (l.menu, l.graph)
    × (y + n ≤ limit)
    × IsFooter h limit l.footer_y

footer-IsFooter :
    (h y : ℕ)
    → (y ≡ 0) ⊎ (y < h)
    → (limit : ℕ) × (y + (bottom h (footer h) - y) ≤ limit) × IsFooter h limit (footer h)
unfolding footer
footer-IsFooter h y free = elim (Bool-cases (leb 3 h)) [
  | inl high ↦
      rw high (h - 1, ground (arith, high, free), (ground (arith, high), ground (arith, high)))
  | inr low ↦ rw low (h, ground (arith, low, free), refl)
]

-- On a screen of at least two columns, and of any height, no block reaches past the edge or over
-- another: the header, the summary, the menu with the plot, and the footer follow each other from
-- the top to the last row, and the plot has room for its caption and axis beside or above the menu.
pub layout_fits : (w h : ℕ) → 2 ≤ w → IsLayout w h (layout w h)
unfolding layout IsLayout
layout_fits w h wide =
    let top = header-IsBanner w h in
    let middle = summary-IsSummary w h (header w h).0 top.1 in
    let y = (summary w h (header w h).0).0 in
    let (limit, over, last) = footer-IsFooter h y middle.1 in
    let n = bottom h (footer h) - y in
    ((header w h).0, y, n, limit, top.0, middle.0, blocks-AreBlocks w y n wide, over, last)

last_row : (h limit : ℕ) (o : Option ℕ) → IsFooter h limit o → limit ≤ h
last_row h limit none e = omega (arith, e)
last_row h limit (some row) e = omega (arith, e)

-- The menu lies inside the screen.
pub menu_fits :
    (w h : ℕ)
    → 2 ≤ w
    → let menu = (layout w h).menu in (menu.x + menu.w ≤ w) × (menu.y + menu.h ≤ h)
unfolding IsLayout AreBlocks
menu_fits w h wide =
    let (y0, y, n, limit, banner, summary, shown, over, foot) = layout_fits w h wide in
    let below = last_row h limit (layout w h).footer_y foot in
    (shown.0, omega (arith, shown, over, below))

blocks-wide : (w y n : ℕ) → 5 ≤ w → 1 ≤ (blocks w y n).0.w
unfolding blocks side_by_side stacked
blocks-wide w y n wide = ground arith

-- The menu has a column.
pub menu_wide : (w h : ℕ) → 5 ≤ w → 1 ≤ (layout w h).menu.w
unfolding layout
menu_wide w h wide =
    blocks-wide w (summary w h (header w h).0).0
      (bottom h (footer h) - (summary w h (header w h).0).0) wide
