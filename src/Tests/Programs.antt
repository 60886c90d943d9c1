-- ===== src/Tests/Programs.antt =====
-- The configuration, the calibration and the ladder's pure functions at concrete values.
use wattwarden.Base.{ℕ, ◌≡◌, ◌↔◌, refl, true, false, Option, none, some, List, [], ◌∷◌}
use wattwarden.Core.Error.{ok}
use wattwarden.Core.Traits.{ChargeThreshold, PowerSource}
use wattwarden.Core.Calibrate.{
  charge, recharge, CalibrationState, StateFile, restored, reported, start, finish,
}
use wattwarden.Core.Calibrate.Phases.{Reading, walk, FullThenLow, walk_recharge-FullThenLow}
use wattwarden.Core.Calibrate.Restore.{IsReliable, statuses, finish-restores}

abbrev readings : List Reading
readings = (60, true) ∷ (100, true) ∷ (40, false) ∷ (9, false) ∷ (50, true) ∷ []

abbrev begun : CalibrationState
begun = record { saved_threshold = some 80; phase = charge }

walk_recharge-FullThenLow_example : ((walk readings begun).phase ≡ recharge) ↔ FullThenLow readings
walk_recharge-FullThenLow_example = walk_recharge-FullThenLow readings begun refl

-- A ceiling that takes every value, a battery that shows it, and a file that keeps what it is given.
abbrev pub ceiling : ChargeThreshold ℕ
ceiling = record {
  supports_threshold = λ s. true;
  charge_threshold = λ s. ok s;
  set_charge_threshold = λ v s. (v, ok tt);
}

abbrev gauge : PowerSource ℕ
gauge = record { battery_percentage = λ s. ok s; is_charging = λ s. ok true }

abbrev file : StateFile (Option CalibrationState)
file = record { load = λ f. f; save = λ c f. (some c, true); clear = λ f. none }

file-IsReliable : IsReliable file
file-IsReliable = record { saves = λ c f. refl; load-save = λ c f. refl; load-clear = λ f. refl }

abbrev finished : Option CalibrationState
finished = statuses gauge file (70 ∷ 100 ∷ []) (some begun)

finish-restores_example :
    (ceiling.charge_threshold 80 ≡ ok 80)
    × (finish ceiling file 100 finished ≡ (80, file.clear finished, reported (restored 80)))
    × (file.load (file.clear finished) ≡ none)
unfolding start
finish-restores_example =
    finish-restores ceiling gauge file file-IsReliable 80 100 100 80 none (some begun) 80
      (70 ∷ 100 ∷ []) refl refl
