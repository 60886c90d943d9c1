-- ===== src/Core/Calibrate/Changes.antt =====
-- What the commands of the calibration do to the threshold.
use wattwarden.Base.{ℕ, Bool, true, false, Option, none, some, ◌≡◌, refl, ◌⊎◌, inl, inr, Bool-cases}
use wattwarden.Core.Error.{Done, ok, err}
use wattwarden.Core.Traits.{ChargeThreshold}
use wattwarden.Core.Calibrate.{
  CalibrationState, StateFile, saved_of, saved_report, lifted, start_fresh, start, restore,
  finish_from, finish,
}

module _ {S F : Type 0} (threshold : ChargeThreshold S) (file : StateFile F) where
  saved_report-state : (saved : Option ℕ) (r : F × Bool) (s : S) → (saved_report saved r s).0 ≡ s
  unfolding saved_report
  saved_report-state saved (f, true) s = refl
  saved_report-state saved (f, false) s = refl

  lifted-state : (saved : Option ℕ) (r : S × Done) (f : F) → (lifted file saved r f).0 ≡ r.0
  unfolding lifted
  lifted-state saved (s, ok u) f = saved_report-state saved _ s
  lifted-state saved (s, err e) f = refl

  start_fresh-state :
      (o : Option CalibrationState) (s : S) (f : F)
      → ((start_fresh threshold file o s f).0 ≡ s)
        ⊎ ((start_fresh threshold file o s f).0 ≡ (threshold.set_charge_threshold 100 s).0)
  unfolding start_fresh
  start_fresh-state (some c) s f = inl refl
  start_fresh-state none s f = elim (Bool-cases (threshold.supports_threshold s)) [
    | inl there ↦ rw there (inr (lifted-state _ (threshold.set_charge_threshold 100 s) f))
    | inr missing ↦ rw missing (inl refl)
  ]

  -- A calibration that begins leaves the threshold alone or lifts it to 100.
  pub start-state :
      (s : S) (f : F)
      → ((start threshold file s f).0 ≡ s)
        ⊎ ((start threshold file s f).0 ≡ (threshold.set_charge_threshold 100 s).0)
  unfolding start
  start-state s f = start_fresh-state (file.load f) s f

  -- The threshold that a file holds for the time after the calibration.
  abbrev pub IsSaved : F → ℕ → Type 0
  IsSaved f t = (c : CalibrationState) × (file.load f ≡ some c) × (c.saved_threshold ≡ some t)

  restore-state : (t : ℕ) (r : S × Done) (f : F) → (restore threshold file t r f).0 ≡ r.0
  unfolding restore
  restore-state t (s, ok u) f = refl
  restore-state t (s, err e) f = refl

  finish_from-state :
      (o : Option CalibrationState) (saved : Option ℕ) (s : S) (f : F)
      → file.load f ≡ o
      → saved_of o ≡ saved
      → ((finish_from threshold file o saved s f).0 ≡ s)
        ⊎ ((t : ℕ) × IsSaved f t
            × ((finish_from threshold file o saved s f).0 ≡ (threshold.set_charge_threshold t s).0))
  unfolding finish_from
  finish_from-state none saved s f e k = inl refl
  finish_from-state (some c) none s f e k = inl refl
  finish_from-state (some c) (some t) s f e k =
      inr (t, (c, e, k), restore-state t (threshold.set_charge_threshold t s) f)

  -- A calibration that ends leaves the threshold alone or sets it to what the file holds.
  pub finish-state :
      (s : S) (f : F)
      → ((finish threshold file s f).0 ≡ s)
        ⊎ ((t : ℕ) × IsSaved f t
            × ((finish threshold file s f).0 ≡ (threshold.set_charge_threshold t s).0))
  unfolding finish
  finish-state s f = finish_from-state (file.load f) (saved_of (file.load f)) s f refl refl
