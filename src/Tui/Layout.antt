-- ===== src/Tui/Layout.antt =====
-- crates/wattwarden-tui/src/ui.rs: where each block of the screen goes for a size of the terminal.
pub mod Fits
use wattwarden.Base.{
  ℕ, ◌+◌, ◌-◌, ◌*◌, ◌/◌, min, Bool, ◌&&◌, Option, none, some, leb, ltb, clamp, if◌then◌else◌,
}

-- A rectangular block of the screen.
pub record Region : Type 0 where
  pub x : ℕ
  pub y : ℕ
  pub w : ℕ
  pub h : ℕ

abbrev region : ℕ → ℕ → ℕ → ℕ → Region
region x y w h = record { x = x; y = y; w = w; h = h }

pub record Layout : Type 0 where
  pub banner : Option Region
  pub summary_y : Option ℕ
  pub menu : Region
  pub graph : Option Region
  pub footer_y : Option ℕ

abbrev banner_w : ℕ
banner_w = 68

abbrev banner_h : ℕ
banner_h = 6

-- The length of the title.
abbrev title_len : ℕ
title_len = 10

-- The rows of the plot and of the menu under it, and three rows of caption, axis and blank.
unfoldable pub split_vertical : ℕ → ℕ × ℕ
split_vertical content_h =
    let raw =
      if leb 26 content_h
      then min (content_h / 2) 20
      else if leb 16 content_h
      then content_h / 3
      else content_h / 4 in
    let graph_h = clamp raw 3 (content_h - 4) in
    if ltb content_h 7 then (0, content_h) else (graph_h, content_h - (graph_h + 3))

-- The next free row under the header, and the header.
unfoldable header : ℕ → ℕ → ℕ × Option Region
header w h =
    if leb 72 w && leb 28 h
    then (1 + (banner_h + 1), some (region ((w - banner_w) / 2) 1 banner_w banner_h))
    else if leb 16 w && leb 4 h
    then (1 + 2, some (region ((w - title_len) / 2) 1 title_len 1))
    else (0, none)

unfoldable summary : ℕ → ℕ → ℕ → ℕ × Option ℕ
summary w h y = if leb 24 w && leb (y + 3) h then (y + 2, some y) else (y, none)

unfoldable footer : ℕ → Option ℕ
footer h = if leb 3 h then some (h - 1) else none

abbrev bottom : ℕ → Option ℕ → ℕ
bottom h none = h
bottom h (some f) = f - 1

-- The menu in a column of its own, and the plot on its right.
unfoldable side_by_side : ℕ → ℕ → ℕ → Region × Option Region
side_by_side w y content_h =
    let menu_w = clamp (w * 45 / 100) 44 72 in
    let gx = 2 + menu_w + 2 in
    let gw = w - (gx + 2) in
    let gh = content_h - 2 in
    if leb 34 gw && leb 3 gh
    then (region 2 y menu_w content_h, some (region gx y gw gh))
    else (region 2 y (w - 4) content_h, none)

-- The plot above the menu.
unfoldable stacked : ℕ → ℕ → ℕ × ℕ → Region × Option Region
stacked w y (plot_h, menu_h) =
    if leb 3 plot_h && leb 40 w
    then (region 2 (y + plot_h + 3) (w - 4) menu_h, some (region 2 y (w - 4) plot_h))
    else (region 2 y (w - 4) menu_h, none)

unfoldable blocks : ℕ → ℕ → ℕ → Region × Option Region
unfolding side_by_side stacked split_vertical
blocks w y content_h =
    if leb 110 w && leb 5 content_h
    then side_by_side w y content_h
    else stacked w y (split_vertical content_h)

unfoldable pub layout : ℕ → ℕ → Layout
unfolding header summary footer blocks
layout w h =
    let (y0, banner) = header w h in
    let (y, summary_y) = summary w h y0 in
    let footer_y = footer h in
    let content_h = bottom h footer_y - y in
    let (menu, graph) = blocks w y content_h in
    record {
      banner = banner;
      summary_y = summary_y;
      menu = menu;
      graph = graph;
      footer_y = footer_y;
    }
