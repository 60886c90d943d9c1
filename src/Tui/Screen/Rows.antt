-- ===== src/Tui/Screen/Rows.antt =====
-- The selected row is drawn, marked, inside the menu.
use wattwarden.Base.{
  ℕ, zero, suc, ◌+◌, ◌-◌, ◌≤◌, ◌<◌, text, true, none, some, List, [], ◌∷◌, ◌++◌, ◌≡◌, refl, sym, ap,
  ◌∙◌, ◌⊎◌, inl, inr, arith, ◌==◌, ==_iff, length, subst,
}
use wattwarden.Tui.Menu.{ActionItem, item_at}
use wattwarden.Tui.Line.{menu_line}
use wattwarden.Tui.Layout.{Region}
use wattwarden.Tui.Screen.{
  RowInfo, Write, write, strong_on, blue, white, row_at, draw_row, draw_rows, scroll, above, below,
  scrollbar, draw_menu, title_of,
}
use wattwarden.Tui.Screen.Track.{scroll-Shows}

-- One of the writes is `o`.
abbrev pub IsDrawn : Write → List Write → Type 0
IsDrawn o [] = ⊥
IsDrawn o (v ∷ vs) = (v ≡ o) ⊎ IsDrawn o vs

pub IsDrawn-right : (o : Write) (us vs : List Write) → IsDrawn o vs → IsDrawn o (us ++ vs)
IsDrawn-right o [] vs h = h
IsDrawn-right o (u ∷ us) vs h = inr (IsDrawn-right o us vs h)

pub IsDrawn-left : (o : Write) (us vs : List Write) → IsDrawn o us → IsDrawn o (us ++ vs)
IsDrawn-left o [] vs h = elim h [ ]
IsDrawn-left o (u ∷ us) vs (inl e) = inl e
IsDrawn-left o (u ∷ us) vs (inr h) = inr (IsDrawn-left o us vs h)

IsDrawn-second :
    (o : Write) (us vs ws xs : List Write) → IsDrawn o vs → IsDrawn o (us ++ vs ++ ws ++ xs)
IsDrawn-second o us vs ws xs h =
    IsDrawn-left o (us ++ vs ++ ws) xs (IsDrawn-left o (us ++ vs) ws (IsDrawn-right o us vs h))

-- A row exists before each that exists.
item_at-before :
    (items : List ActionItem) (d n : ℕ) (item : ActionItem)
    → item_at items (n + d) ≡ some item
    → (other : ActionItem) × (item_at items n ≡ some other)
unfolding item_at
item_at-before [] d n item e = ground arith
item_at-before (x ∷ items) d zero item e = (x, refl)
item_at-before (x ∷ items) d (suc n) item e =
    let up : suc n + d ≡ suc (n + d) = omega arith in
    item_at-before items d n item (ap (item_at (x ∷ items)) (sym up) ∙ e)

row_at-before :
    (rows : List RowInfo) (d n : ℕ) (row : RowInfo)
    → row_at rows (n + d) ≡ some row
    → (other : RowInfo) × (row_at rows n ≡ some other)
row_at-before [] d n row e = ground arith
row_at-before (x ∷ rows) d zero row e = (x, refl)
row_at-before (x ∷ rows) d (suc n) row e =
    let up : suc n + d ≡ suc (n + d) = omega arith in
    row_at-before rows d n row (ap (row_at (x ∷ rows)) (sym up) ∙ e)

draw_row-marked :
    (menu : Region) (selected idx y : ℕ) (item : ActionItem) (row : RowInfo)
    → idx ≡ selected
    → title_of item ≡ none
    → draw_row menu selected idx y item row
      ≡ write menu.x y (menu_line menu.w (text " > ") row.name row.value) (strong_on blue white)
unfolding draw_row
draw_row-marked menu selected idx y item row same entry =
    let here : (idx == selected) ≡ true = (==_iff idx selected).1 same in rw (entry, here) refl

-- The row `k` places further down is among those drawn.
draw_rows-IsDrawn :
    (menu : Region) (items : List ActionItem) (rows : List RowInfo) (selected off n i k : ℕ)
    (item : ActionItem) (row : RowInfo)
    → k < n
    → item_at items (off + i + k) ≡ some item
    → row_at rows (off + i + k) ≡ some row
    → IsDrawn
        (draw_row menu selected (off + i + k) (menu.y + i + k) item row)
        (draw_rows menu items rows selected off n i)
unfolding draw_rows
draw_rows-IsDrawn menu items rows selected off zero i k item row h ei er = absurd (omega (arith, h))
draw_rows-IsDrawn menu items rows selected off (suc n) i zero item row h ei er =
    let e : off + i + 0 ≡ off + i = omega arith in
    let f : menu.y + i + 0 ≡ menu.y + i = omega arith in
    let ei' : item_at items (off + i) ≡ some item = rw (← e) ei in
    let er' : row_at rows (off + i) ≡ some row = rw (← e) er in rw (e, f, ei', er') (inl refl)
draw_rows-IsDrawn menu items rows selected off (suc n) i (suc k) item row h ei er =
    let e : off + i + suc k ≡ off + suc i + k = omega arith in
    let f : menu.y + i + suc k ≡ menu.y + suc i + k = omega arith in
    let (other, oi) = item_at-before items (suc k) (off + i) item ei in
    let (line, ol) = row_at-before rows (suc k) (off + i) row er in
    let lower =
      draw_rows-IsDrawn menu items rows selected off n (suc i) k item row (omega (arith, h))
        (rw (← e) ei) (rw (← e) er) in
    let later = draw_rows menu items rows selected off n (suc i) in
    let moved =
      subst (λ a. IsDrawn (draw_row menu selected a (menu.y + suc i + k) item row) later) (sym e)
        lower in
    rw (oi, ol)
      (inr (
        subst (λ b. IsDrawn (draw_row menu selected (off + i + suc k) b item row) later) (sym f)
          moved))

-- In a menu of at least one row, the selected row, which is no header, is written with the marker
-- and the colours of the selection at the left edge of the menu, on one of the menu's own rows,
-- wherever the view stood before.
pub draw_menu-IsDrawn :
    (items : List ActionItem) (rows : List RowInfo) (selected before : ℕ) (menu : Region)
    (item : ActionItem) (row : RowInfo)
    → 1 ≤ menu.h
    → item_at items selected ≡ some item
    → title_of item ≡ none
    → row_at rows selected ≡ some row
    → (y : ℕ) × (menu.y ≤ y)
      × (y < menu.y + menu.h)
      × IsDrawn
          (write menu.x y (menu_line menu.w (text " > ") row.name row.value) (strong_on blue white))
          (draw_menu items rows selected before menu).1
unfolding draw_menu
draw_menu-IsDrawn items rows selected before menu item row room ei entry er =
    let off : ℕ = scroll selected menu.h before in
    let shown = scroll-Shows selected menu.h before room in
    let at : off + 0 + (selected - off) ≡ selected = omega (arith, shown) in
    let drawn =
      draw_rows-IsDrawn menu items rows selected off menu.h 0 (selected - off) item row
        (omega (arith, shown)) (rw at ei) (rw at er) in
    (
      menu.y + 0 + (selected - off),
      omega arith,
      omega (arith, shown),
      let marked =
            draw_row-marked menu selected (off + 0 + (selected - off))
              (menu.y + 0 + (selected - off)) item row at entry in
          let here =
            subst (λ o. IsDrawn o (draw_rows menu items rows selected off menu.h 0)) marked drawn in
          IsDrawn-second
            (write menu.x (menu.y + 0 + (selected - off))
              (menu_line menu.w (text " > ") row.name row.value) (strong_on blue white))
            (above menu off) (draw_rows menu items rows selected off menu.h 0)
            (scrollbar menu (length items) off) (below menu (length items) off) here,
    )
