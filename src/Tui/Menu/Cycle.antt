-- ===== src/Tui/Menu/Cycle.antt =====
-- The charge limits that the dashboard steps through.
use wattwarden.Base.{
  ℕ, zero, suc, ◌+◌, ◌%◌, ◌≤◌, ◌<◌, length, Bool, true, false, not, Option, some, List, [], ◌∷◌,
  ◌≡◌, refl, ◌⊎◌, inl, inr, arith, All, subst, sym,
}
use wattwarden.Tui.Menu.{steps, position, step_at, next_charge_limit}

-- One of the limits of the list.
abbrev pub IsOneOf : Option ℕ → List (Option ℕ) → Type 0
IsOneOf limit [] = ⊥
IsOneOf limit (v ∷ vs) = (limit ≡ v) ⊎ IsOneOf limit vs

IsOneOf-All :
    (P : Option ℕ → Type 0) (limit : Option ℕ) (vs : List (Option ℕ))
    → All P vs
    → IsOneOf limit vs
    → P limit
IsOneOf-All P limit [] ps h = elim h [ ]
IsOneOf-All P limit (v ∷ vs) (p, ps) (inl e) = subst P (sym e) p
IsOneOf-All P limit (v ∷ vs) (p, ps) (inr h) = IsOneOf-All P limit vs ps h

-- A step forward and a step back lead from every limit of the cycle to itself, in either order.
pub next_charge_limit_inverse :
    (limit : Option ℕ) (forward : Bool)
    → IsOneOf limit steps
    → next_charge_limit (next_charge_limit limit forward) (not forward) ≡ limit
unfolding next_charge_limit steps position step_at
next_charge_limit_inverse limit true h =
    IsOneOf-All (λ limit. next_charge_limit (next_charge_limit limit true) false ≡ limit) limit
      steps (search) h
next_charge_limit_inverse limit false h =
    IsOneOf-All (λ limit. next_charge_limit (next_charge_limit limit false) true ≡ limit) limit
      steps (search) h

-- A limit that the elements' positions are searched for is found among the elements, or taken for
-- the first of them.
position-bound :
    (i : ℕ) (limit : Option ℕ) (vs : List (Option ℕ))
    → (position i limit vs ≡ 0)
      ⊎ ((i ≤ position i limit vs) × (position i limit vs < i + length vs))
unfolding position
position-bound i limit [] = inl refl
position-bound i limit (v ∷ vs) = ground (arith, position-bound (i + 1) limit vs)

step_at-IsOneOf : (vs : List (Option ℕ)) (i : ℕ) → i < length vs → IsOneOf (step_at vs i) vs
unfolding step_at
step_at-IsOneOf [] i h = omega arith
step_at-IsOneOf (v ∷ vs) zero h = inl refl
step_at-IsOneOf (v ∷ vs) (suc i) h = inr (step_at-IsOneOf vs i (omega arith))

-- From whatever limit the configuration holds, also one outside the cycle, a step either way leads
-- into the cycle: to no limit, or to a multiple of 5 between 55 and 100.
pub next_charge_limit-IsOneOf :
    (limit : Option ℕ) (forward : Bool) → IsOneOf (next_charge_limit limit forward) steps
unfolding next_charge_limit steps
next_charge_limit-IsOneOf limit true = step_at-IsOneOf steps _ (omega arith)
next_charge_limit-IsOneOf limit false = step_at-IsOneOf steps _ (omega arith)

-- What the limits of the cycle have in common.
pub IsOneOf-bounds :
    (limit : ℕ) → IsOneOf (some limit) steps → (55 ≤ limit) × (limit ≤ 100) × (limit % 5 ≡ 0)
unfolding steps
IsOneOf-bounds limit h = ground arith
