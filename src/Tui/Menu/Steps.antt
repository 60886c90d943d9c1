-- ===== src/Tui/Menu/Steps.antt =====
-- Where the selection goes.
use wattwarden.Base.{
  ℕ, zero, suc, ◌+◌, ◌-◌, ◌≤◌, ◌<◌, Bool, true, false, Option, none, some, List, [], ◌∷◌, ◌≡◌, refl,
  ◌⊎◌, inl, inr, arith, ap, ◌∙◌, drop, Bool-cases,
}
use wattwarden.Tui.Menu.{
  ActionItem, is_header, is_entry, item_at, first_entry, last_entry, or_stay, step_selection,
}

le-cases : (lo k : ℕ) → lo ≤ k → (lo ≡ k) ⊎ (lo + 1 ≤ k)
le-cases lo k h = ground arith

item_at-drop :
    (items : List ActionItem) (m k : ℕ) → item_at (drop m items) k ≡ item_at items (m + k)
unfolding item_at
item_at-drop items zero k = ap (item_at items) (omega arith)
item_at-drop [] (suc m) k = refl
item_at-drop (item ∷ items) (suc m) k =
    let e : suc (m + k) ≡ suc m + k = omega arith in
    item_at-drop items m k ∙ ap (item_at (item ∷ items)) e

-- What a search from position `lo` upwards has found.
abbrev IsFirst : List ActionItem → ℕ → Option ℕ → Type 0
IsFirst items lo none = (k : ℕ) → lo ≤ k → is_entry (item_at items k) ≡ false
IsFirst items lo (some n) =
    (lo ≤ n)
    × (is_entry (item_at items n) ≡ true)
    × ((k : ℕ) → lo ≤ k → k < n → is_entry (item_at items k) ≡ false)

IsFirst-later :
    (items : List ActionItem) (lo : ℕ) (o : Option ℕ)
    → is_entry (item_at items lo) ≡ false
    → IsFirst items (lo + 1) o
    → IsFirst items lo o
IsFirst-later items lo none here h =
    λ k p. elim (le-cases lo k p) [ inl e ↦ rw (← e) here | inr q ↦ h k q ]
IsFirst-later items lo (some n) here h = (
  omega (arith, h.0),
  h.1,
  λ k p q. elim (le-cases lo k p) [ inl e ↦ rw (← e) here | inr r ↦ h.2 k r q ],
)

first_entry-IsFirst :
    (items part : List ActionItem) (lo : ℕ)
    → ((k : ℕ) → item_at part k ≡ item_at items (lo + k))
    → IsFirst items lo (first_entry lo part)
unfolding first_entry item_at
first_entry-IsFirst items [] lo at =
    λ k p. let e : lo + (k - lo) ≡ k = omega arith in rw (← e, ← at (k - lo)) refl
first_entry-IsFirst items (item ∷ part) lo at = elim (Bool-cases (is_header item)) [
  | inl title ↦ rw title (
      IsFirst-later items lo (first_entry (lo + 1) part) (rw (← here, title) refl)
        (first_entry-IsFirst items part (lo + 1) λ k. at (suc k) ∙ ap (item_at items) (next k)))
  | inr row ↦ rw row (omega arith, rw (← here, row) refl, λ k p q. absurd (omega arith))
]
  where
    next : (k : ℕ) → lo + suc k ≡ lo + 1 + k
    next k = omega arith

    here : some item ≡ item_at items lo
    here = at 0 ∙ ap (item_at items) (omega arith)

-- What a search below position `hi` downwards has found.
abbrev IsLast : List ActionItem → ℕ → Option ℕ → Type 0
IsLast items hi none = (k : ℕ) → k < hi → is_entry (item_at items k) ≡ false
IsLast items hi (some n) =
    (n < hi)
    × (is_entry (item_at items n) ≡ true)
    × ((k : ℕ) → n < k → k < hi → is_entry (item_at items k) ≡ false)

lt-cases : (k hi : ℕ) → k < suc hi → (hi ≡ k) ⊎ (k < hi)
lt-cases k hi h = ground arith

IsLast-earlier :
    (items : List ActionItem) (hi : ℕ) (o : Option ℕ)
    → is_entry (item_at items hi) ≡ false
    → IsLast items hi o
    → IsLast items (suc hi) o
IsLast-earlier items hi none here h =
    λ k p. elim (lt-cases k hi p) [ inl e ↦ rw (← e) here | inr q ↦ h k q ]
IsLast-earlier items hi (some n) here h = (
  omega (arith, h.0),
  h.1,
  λ k p q. elim (lt-cases k hi q) [ inl e ↦ rw (← e) here | inr r ↦ h.2 k p r ],
)

last_entry-IsLast : (items : List ActionItem) (hi : ℕ) → IsLast items hi (last_entry items hi)
unfolding last_entry
last_entry-IsLast items zero = λ k p. absurd (omega arith)
last_entry-IsLast items (suc n) = elim (Bool-cases (is_entry (item_at items n))) [
  | inl row ↦ rw row (omega arith, row, λ k p q. absurd (omega arith))
  | inr title ↦
      rw title (IsLast-earlier items n (last_entry items n) title (last_entry-IsLast items n))
]

-- How a step ends: the selection stays, since there is no row in that direction, or moves to the
-- nearest one.
abbrev pub Lands : List ActionItem → ℕ → Bool → ℕ → Type 0
Lands items selected true n =
    ((n ≡ selected) × ((k : ℕ) → selected < k → is_entry (item_at items k) ≡ false))
    ⊎ ((selected < n)
        × (is_entry (item_at items n) ≡ true)
        × ((k : ℕ) → selected < k → k < n → is_entry (item_at items k) ≡ false))
Lands items selected false n =
    ((n ≡ selected) × ((k : ℕ) → k < selected → is_entry (item_at items k) ≡ false))
    ⊎ ((n < selected)
        × (is_entry (item_at items n) ≡ true)
        × ((k : ℕ) → n < k → k < selected → is_entry (item_at items k) ≡ false))

first_entry-Lands :
    (items : List ActionItem) (selected : ℕ) (o : Option ℕ)
    → IsFirst items (selected + 1) o
    → Lands items selected true (or_stay selected o)
first_entry-Lands items selected none h = inl (refl, λ k p. h k (omega arith))
first_entry-Lands items selected (some n) h =
    inr (omega (arith, h.0), h.1, λ k p q. h.2 k (omega arith) q)

last_entry-Lands :
    (items : List ActionItem) (selected : ℕ) (o : Option ℕ)
    → IsLast items selected o
    → Lands items selected false (or_stay selected o)
last_entry-Lands items selected none h = inl (refl, h)
last_entry-Lands items selected (some n) h = inr h

-- A step selects the nearest row in its direction that is no header, and leaves the selection where
-- it is exactly when every row in that direction is a header: there is no wrap around.
pub step_selection-Lands :
    (items : List ActionItem) (selected : ℕ) (forward : Bool)
    → Lands items selected forward (step_selection items selected forward)
unfolding step_selection
step_selection-Lands items selected true =
    first_entry-Lands items selected (first_entry (selected + 1) (drop (selected + 1) items)) (
      first_entry-IsFirst items (drop (selected + 1) items) (selected + 1)
        (item_at-drop items (selected + 1)))
step_selection-Lands items selected false =
    last_entry-Lands items selected (last_entry items selected) (last_entry-IsLast items selected)

-- A step from a row that can be selected leads to one.
pub step_selection-is_entry :
    (items : List ActionItem) (selected : ℕ) (forward : Bool)
    → is_entry (item_at items selected) ≡ true
    → is_entry (item_at items (step_selection items selected forward)) ≡ true
step_selection-is_entry items selected true h = elim (step_selection-Lands items selected true) [
  | inl stays ↦ rw stays.0 h
  | inr moves ↦ moves.1
]
step_selection-is_entry items selected false h = elim (step_selection-Lands items selected false) [
  | inl stays ↦ rw stays.0 h
  | inr moves ↦ moves.1
]
