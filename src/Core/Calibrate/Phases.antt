-- ===== src/Core/Calibrate/Phases.antt =====
-- The phase machine over a sequence of gauge readings.
use wattwarden.Base.{
  ℕ, ◌≤◌, ◌≡◌, ◌↔◌, refl, ◌⊎◌, inl, inr, Bool, true, false, not, ◌&&◌, List, [], ◌∷◌, leb, arith,
  Bool-cases,
}
use wattwarden.Core.Calibrate.{
  Phase, charge, discharge, recharge, CalibrationState, advance, advance_from,
}

-- A reading: the capacity in percent, and whether the battery is charging.
abbrev pub Reading : Type 0
Reading = ℕ × Bool

walk_phase : List Reading → Phase → Phase
walk_phase [] p = p
walk_phase ((capacity, charging) ∷ rs) p = walk_phase rs (advance_from p capacity charging)

-- The state after the readings, in order.
pub walk : List Reading → CalibrationState → CalibrationState
walk [] c = c
walk ((capacity, charging) ∷ rs) c = walk rs (advance c capacity charging)

abbrev pub IsLow : Reading → Type 0
IsLow r = (r.0 ≤ 10) × (r.1 ≡ false)

abbrev pub SomeLow : List Reading → Type 0
SomeLow [] = ⊥
SomeLow (r ∷ rs) = IsLow r ⊎ SomeLow rs

-- A reading of 100% or more, and after it one of at most 10% on battery.
abbrev pub FullThenLow : List Reading → Type 0
FullThenLow [] = ⊥
FullThenLow (r ∷ rs) = (100 ≤ r.0) × SomeLow rs ⊎ FullThenLow rs

walk-phase : (rs : List Reading) (c : CalibrationState) → (walk rs c).phase ≡ walk_phase rs c.phase
unfolding walk walk_phase advance
walk-phase [] c = refl
walk-phase ((capacity, charging) ∷ rs) c = walk-phase rs (advance c capacity charging)

walk-recharge : (rs : List Reading) → walk_phase rs recharge ≡ recharge
unfolding walk_phase advance_from
walk-recharge [] = refl
walk-recharge ((capacity, charging) ∷ rs) = walk-recharge rs

IsLow-test :
    (capacity : ℕ) (charging : Bool)
    → ((not charging && leb capacity 10) ≡ true) ↔ IsLow (capacity, charging)
IsLow-test capacity true = (λ e. cc, λ h. cc)
IsLow-test capacity false = (λ e. (ground arith, refl), λ h. ground arith)

walk-discharge : (rs : List Reading) → (walk_phase rs discharge ≡ recharge) ↔ SomeLow rs
unfolding walk_phase advance_from
walk-discharge [] = (λ e. cc, λ h. absurd h)
walk-discharge ((capacity, charging) ∷ rs) = elim (Bool-cases (not charging && leb capacity 10)) [
  | inl low ↦ rw low (λ e. inl ((IsLow-test capacity charging).0 low), λ h. walk-recharge rs)
  | inr high ↦ rw high (
    λ e. inr ((walk-discharge rs).0 e),
    λ h. elim h [
      | inl low ↦ cc (high, (IsLow-test capacity charging).1 low)
      | inr later ↦ (walk-discharge rs).1 later
    ],
  )
]

some_low : (r : Reading) (rs : List Reading) → FullThenLow rs → SomeLow rs
some_low r [] h = absurd h
some_low r (q ∷ rs) (inl (full, later)) = inr later
some_low r (q ∷ rs) (inr h) = inr (some_low r rs h)

walk-charge : (rs : List Reading) → (walk_phase rs charge ≡ recharge) ↔ FullThenLow rs
unfolding walk_phase advance_from
walk-charge [] = (λ e. cc, λ h. absurd h)
walk-charge ((capacity, charging) ∷ rs) = elim (Bool-cases (leb 100 capacity)) [
  | inl full ↦ rw full (
    λ e. inl (ground arith, (walk-discharge rs).0 e),
    λ h. elim h [
      | inl (_, later) ↦ (walk-discharge rs).1 later
      | inr later ↦ (walk-discharge rs).1 (some_low (capacity, charging) rs later)
    ],
  )
  | inr part ↦ rw part (
    λ e. inr ((walk-charge rs).0 e),
    λ h. elim h [ inl (enough, _) ↦ absurd (ground arith) | inr later ↦ (walk-charge rs).1 later ],
  )
]

-- A calibration that has just started is in its last phase after some readings exactly when they
-- hold one of at least 100% and, later, one of at most 10% while not charging.
pub walk_recharge-FullThenLow :
    (rs : List Reading) (c : CalibrationState)
    → c.phase ≡ charge
    → ((walk rs c).phase ≡ recharge) ↔ FullThenLow rs
walk_recharge-FullThenLow rs c e = rw (walk-phase, e) (walk-charge rs)
