-- ===== src/Tui/Screen/Track.antt =====
-- The selected row stays in view, and the thumb of the scroll bar on its track.
use wattwarden.Base.{ℕ, ◌+◌, ◌-◌, ◌*◌, ◌/◌, ◌≤◌, ◌<◌, max, arith}
use native.Mathlib.Nat.{div-le_of_le-mul, mul-le-mul_right}
use wattwarden.Tui.Screen.{scroll, thumb}

pub scroll-Shows :
    (selected v offset : ℕ)
    → 1 ≤ v
    → let off = scroll selected v offset in (off ≤ selected) × (selected < off + v)
unfolding scroll
scroll-Shows selected v offset room = ground arith

scroll-keeps :
    (selected v count offset : ℕ)
    → selected < count
    → offset + v ≤ count
    → scroll selected v offset + v ≤ count
unfolding scroll
scroll-keeps selected v count offset in_list full = ground arith

quotient_below : (a b k : ℕ) → a ≤ k → a * b / k ≤ b
quotient_below a b k h = div-le_of_le-mul k (mul-le-mul_right b h)

-- With a list longer than the menu, scrolling keeps the selected row in view, leaves no row of the
-- menu empty if none was, and the thumb that is drawn then is at least one row high and stays on the
-- menu's rows.
pub scroll-thumb :
    (selected v count offset : ℕ)
    → 1 ≤ v
    → v < count
    → selected < count
    → offset + v ≤ count
    → let off = scroll selected v offset in
      let (height, pos) = thumb v count off in
      (off ≤ selected)
      × (selected < off + v)
      × (off + v ≤ count)
      × (1 ≤ height)
      × (pos + height ≤ v)
unfolding scroll thumb
scroll-thumb selected v count offset room long in_list full =
    let shown = scroll-Shows selected v offset room in
    let off = scroll selected v offset in
    let kept : off + v ≤ count = scroll-keeps selected v count offset in_list full in
    let height : ℕ = max (v * v / count) 1 in
    let low : v * v / count ≤ v = quotient_below v v count (omega (arith, long)) in
    let top : off * (v - height) / max (count - v) 1 ≤ v - height =
      quotient_below off (v - height) (max (count - v) 1) (omega (arith, kept)) in
    (shown.0, shown.1, kept, omega arith, omega (arith, low, top, room))
