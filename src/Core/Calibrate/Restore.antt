-- ===== src/Core/Calibrate/Restore.antt =====
-- What a whole calibration leaves behind.
use wattwarden.Base.{
  ℕ, ◌≡◌, refl, sym, ◌∙◌, ap, subst, Bool, true, false, Option, none, some, List, [], ◌∷◌, not,
  if◌then◌else◌,
}
use wattwarden.Core.Error.{Result, ok, err, Done}
use wattwarden.Core.Traits.{ChargeThreshold, PowerSource}
use wattwarden.Core.Calibrate.{
  charge, CalibrationState, StateFile, started, restored, Outcome, reported, refused, no_threshold,
  to_option, saved_report, lifted, start_fresh, start, finish_from, restore, finish,
  progress_report, observe, status_from, status, advance,
}

-- What is assumed of the file system and of serde: writes are accepted, what was saved is loaded, and
-- nothing is loaded from a removed file.
pub record IsReliable {F : Type 0} (file : StateFile F) : Type 0 where
  pub saves : (c : CalibrationState) (f : F) → (file.save c f).1 ≡ true
  pub load-save : (c : CalibrationState) (f : F) → file.load (file.save c f).0 ≡ some c
  pub load-clear : (f : F) → file.load (file.clear f) ≡ none

-- `calibrate status` any number of times, over what the hardware shows each time.
pub statuses : {S F : Type 0} → PowerSource S → StateFile F → List S → F → F
statuses battery file [] f = f
statuses battery file (s ∷ ss) f = statuses battery file ss (status battery file s f).0

-- The file holds a state whose saved threshold is `saved`.
abbrev Remembers : {F : Type 0} → StateFile F → Option ℕ → F → Type 0
Remembers file saved f =
    (c : CalibrationState) × (file.load f ≡ some c) × (c.saved_threshold ≡ saved)

module _ {S F : Type 0} (threshold : ChargeThreshold S) (battery : PowerSource S)
    (file : StateFile F) (reliable : IsReliable file) where
  save-Remembers :
      (c : CalibrationState) (f : F) → Remembers file c.saved_threshold (file.save c f).0
  save-Remembers c f = (c, reliable.load-save c f, refl)

  saved_report-Remembers :
      (saved shown : Option ℕ) (p : F × Bool) (s s1 : S) (f1 : F)
      → Remembers file saved p.0
      → saved_report saved p s ≡ (s1, f1, reported (started shown))
      → (shown ≡ saved) × Remembers file saved f1
  unfolding saved_report
  saved_report-Remembers saved shown (f, true) s s1 f1 h e =
      let written : f ≡ f1 = cc in (cc, subst (Remembers file saved) written h)
  saved_report-Remembers saved shown (f, false) s s1 f1 h e = absurd cc

  progress_report-file :
      (c : CalibrationState) (n : ℕ) (b : Bool) (p : F × Bool) → (progress_report c n b p).0 ≡ p.0
  unfolding progress_report
  progress_report-file c n b (f, true) = refl
  progress_report-file c n b (f, false) = refl

  observe-Remembers :
      (saved : Option ℕ) (c : CalibrationState) (reading : Result ℕ) (charging : Bool) (f : F)
      → file.load f ≡ some c
      → c.saved_threshold ≡ saved
      → Remembers file saved (observe file c reading charging f).0
  unfolding observe advance
  observe-Remembers saved c (err e) charging f loaded kept = (c, loaded, kept)
  observe-Remembers saved c (ok n) charging f loaded kept =
      let c' = advance c n charging in
      (
        c',
        ap file.load (progress_report-file c' n charging (file.save c' f))
            ∙ reliable.load-save c' f,
        kept,
      )

  status-Remembers :
      (saved : Option ℕ) (s : S) (f : F)
      → Remembers file saved f
      → Remembers file saved (status battery file s f).0
  unfolding status status_from
  status-Remembers saved s f (c, loaded, kept) =
      rw loaded (observe-Remembers saved c (battery.battery_percentage s) _ f loaded kept)

  statuses-Remembers :
      (saved : Option ℕ) (ss : List S) (f : F)
      → Remembers file saved f
      → Remembers file saved (statuses battery file ss f)
  unfolding statuses
  statuses-Remembers saved [] f h = h
  statuses-Remembers saved (s ∷ ss) f h =
      statuses-Remembers saved ss (status battery file s f).0 (status-Remembers saved s f h)

  -- `start` can only report a start if the whole of it went through.
  lifted-Remembers :
      (saved shown : Option ℕ) (lift : S × Done) (f f1 : F) (s1 : S)
      → lifted file saved lift f ≡ (s1, f1, reported (started shown))
      → (shown ≡ saved) × Remembers file saved f1
  unfolding lifted
  lifted-Remembers saved shown (s, ok u) f f1 s1 e =
      let c : CalibrationState = record { saved_threshold = saved; phase = charge } in
      saved_report-Remembers saved shown (file.save c f) s s1 f1 (save-Remembers c f) e
  lifted-Remembers saved shown (s, err x) f f1 s1 e = absurd cc

  start_fresh-Remembers :
      (loaded : Option CalibrationState) (shown : Option ℕ) (s s1 : S) (f f1 : F)
      → start_fresh threshold file loaded s f ≡ (s1, f1, reported (started shown))
      → (shown ≡ to_option (threshold.charge_threshold s)) × Remembers file shown f1
  unfolding start_fresh
  start_fresh-Remembers (some c) shown s s1 f f1 e = absurd cc
  start_fresh-Remembers none shown s s1 f f1 e =
      let read = to_option (threshold.charge_threshold s) in
      let lift = threshold.set_charge_threshold 100 s in
      let (same, held) =
        lifted-Remembers read shown lift f f1 s1
          (supported (not (threshold.supports_threshold s)) _ e) in
      (same, subst (λ saved. Remembers file saved f1) (sym same) held)
    where
      supported :
          (b : Bool) (x : S × F × Outcome)
          → (if b then (s, f, refused no_threshold) else x) ≡ (s1, f1, reported (started shown))
          → x ≡ (s1, f1, reported (started shown))
      supported true x e = absurd cc
      supported false x e = e

  finish-Remembers :
      (t : ℕ) (s2 s3 : S) (f : F)
      → Remembers file (some t) f
      → threshold.set_charge_threshold t s2 ≡ (s3, ok tt)
      → finish threshold file s2 f ≡ (s3, file.clear f, reported (restored t))
  unfolding finish finish_from restore
  finish-Remembers t s2 s3 f (c, loaded, kept) written = rw (loaded, kept, written)

  ok_of : (r : Result ℕ) (t : ℕ) → some t ≡ to_option r → r ≡ ok t
  ok_of (ok v) t e = cc
  ok_of (err x) t e = absurd cc

  -- With a reliable state file, a calibration whose start reported the saved threshold `t` read it
  -- from the hardware, and however many times its status was asked for and whatever the battery
  -- showed, `finish` writes `t` back, reports it, and leaves no calibration behind, if the hardware
  -- takes the write.
  pub finish-restores :
      (s s1 s2 s3 : S) (f f1 : F) (t : ℕ) (ss : List S)
      → start threshold file s f ≡ (s1, f1, reported (started (some t)))
      → threshold.set_charge_threshold t s2 ≡ (s3, ok tt)
      → let f2 = statuses battery file ss f1 in
        (threshold.charge_threshold s ≡ ok t)
        × (finish threshold file s2 f2 ≡ (s3, file.clear f2, reported (restored t)))
        × (file.load (file.clear f2) ≡ none)
  unfolding start
  finish-restores s s1 s2 s3 f f1 t ss begun written =
      let (read, held) = start_fresh-Remembers (file.load f) (some t) s s1 f f1 begun in
      let f2 = statuses battery file ss f1 in
      (
        ok_of (threshold.charge_threshold s) t read,
        finish-Remembers t s2 s3 f2 (statuses-Remembers (some t) ss f1 held) written,
        reliable.load-clear f2,
      )
