-- ===== src/Tui/Line/Width.antt =====
-- A row of the menu is as wide as its column.
use wattwarden.Base.{
  ℕ, zero, suc, ◌+◌, ◌-◌, ◌≤◌, min, Text, text, List, [], ◌∷◌, ◌++◌, ◌≡◌, refl, ap, length,
  length-append, take, ◌==◌, arith, inl, inr, Bool-cases,
}
use wattwarden.Tui.Line.{fit, blanks, pad_right, pad_left, value_width, name_width, menu_line}

length-take : {A : Type 0} (n : ℕ) (s : List A) → length (take n s) ≡ min n (length s)
length-take zero s = omega arith
length-take (suc n) [] = omega arith
length-take (suc n) (c ∷ s) = let e = length-take n s in omega (arith, e)

length-blanks : (n : ℕ) → length (blanks n) ≡ n
length-blanks zero = refl
length-blanks (suc n) = ap suc (length-blanks n)

take_all : {A : Type 0} (n : ℕ) (s : List A) → length s ≡ n → take n s ≡ s
take_all zero [] e = refl
take_all zero (c ∷ s) e = absurd (omega (arith, e))
take_all (suc n) [] e = refl
take_all (suc n) (c ∷ s) e = ap (◌∷◌ c) (take_all n s (omega (arith, e)))

pub length-fit : (s : Text) (w : ℕ) → length (fit s w) ≡ min (length s) w
unfolding fit
length-fit s w =
    let cut = length-take w s in
    let short = length-take (w - 3) s in
    let marked = length-append (take (w - 3) s) (text "...") in ground (arith, cut, short, marked)

length-pad_right : (w : ℕ) (s : Text) → length s ≤ w → length (pad_right w s) ≡ w
length-pad_right w s h =
    let e = length-append s (blanks (w - length s)) in
    let n = length-blanks (w - length s) in omega (arith, e, n, h)

length-pad_left : (w : ℕ) (s : Text) → length s ≤ w → length (pad_left w s) ≡ w
length-pad_left w s h =
    let e = length-append (blanks (w - length s)) s in
    let n = length-blanks (w - length s) in omega (arith, e, n, h)

-- The marker, the name and the value as they are put together, before the cut.
abbrev assembled : ℕ → Text → Text → Text → Text
assembled menu_w prefix name value =
    let name_w = name_width menu_w prefix in
    let val_w = value_width menu_w in
    prefix ++ (pad_right name_w (fit name name_w) ++ (text " " ++ pad_left val_w (fit value val_w)))

length-assembled :
    (menu_w : ℕ) (prefix name value : Text)
    → length (assembled menu_w prefix name value)
      ≡ length prefix + name_width menu_w prefix + 1 + value_width menu_w
length-assembled menu_w prefix name value =
    let a = name_width menu_w prefix in
    let b = value_width menu_w in
    let fa = length-fit name a in
    let fb = length-fit value b in
    let left = length-pad_right a (fit name a) (omega (arith, fa)) in
    let right = length-pad_left b (fit value b) (omega (arith, fb)) in
    let back = pad_left b (fit value b) in
    let e1 : length (assembled menu_w prefix name value)
        ≡ length prefix + length (pad_right a (fit name a) ++ (text " " ++ back)) =
      length-append prefix (pad_right a (fit name a) ++ (text " " ++ back)) in
    let e2 = length-append (pad_right a (fit name a)) (text " " ++ back) in
    let e3 = length-append (text " ") back in omega (arith, left, right, e1, e2, e3)

-- A row of the menu is exactly as wide as its column, whatever the width, the marker, the name and
-- the value.
pub length-menu_line :
    (menu_w : ℕ) (prefix name value : Text) → length (menu_line menu_w prefix name value) ≡ menu_w
unfolding menu_line
length-menu_line menu_w prefix name value =
    let e = length-assembled menu_w prefix name value in
    let cut = length-take menu_w (assembled menu_w prefix name value) in ground (arith, e, cut)

-- In a column with room for the marker, a value and two more characters nothing is cut off at the
-- end: the row ends with the value, fitted to its width, and the name gives way.
pub menu_line_keeps :
    (menu_w : ℕ) (prefix name value : Text)
    → length prefix + value_width menu_w + 2 ≤ menu_w
    → menu_line menu_w prefix name value
      ≡ prefix
        ++ (pad_right (name_width menu_w prefix) (fit name (name_width menu_w prefix))
            ++ (text " " ++ pad_left (value_width menu_w) (fit value (value_width menu_w))))
unfolding menu_line
menu_line_keeps menu_w prefix name value room =
    let e = length-assembled menu_w prefix name value in
    let whole = take_all menu_w (assembled menu_w prefix name value) (omega (arith, e, room)) in
    elim (Bool-cases (menu_w == 0)) [
      | inl nothing ↦ absurd (ground (arith, nothing, room))
      | inr wide ↦ rw wide whole
    ]
