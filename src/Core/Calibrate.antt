-- ===== src/Core/Calibrate.antt =====
-- crates/wattwarden-core/src/calibrate.rs: the guided recalibration. The threshold and the battery
-- are reached through their interfaces, and the state file, which serde reads and writes, through
-- `StateFile`. The texts of reports and errors are left out; their kinds and data are kept.
pub mod Phases
pub mod Restore
pub mod Changes
use wattwarden.Base.{
  ℕ, Bool, true, false, ◌&&◌, not, Option, none, some, leb, if◌then◌else◌, List, [], ◌∷◌,
}
use wattwarden.Core.Error.{WattWardenError, Result, ok, err, Done, unwrap_or}
use wattwarden.Core.Error
use wattwarden.Core.Traits.{ChargeThreshold, PowerSource}

pub data Phase : Type 0 where
  charge discharge recharge : Phase

pub record CalibrationState : Type 0 where
  pub saved_threshold : Option ℕ
  pub phase : Phase

-- `CalibrationState::load`, `save` and `clear`. A missing and an unreadable file are both `none`.
pub record StateFile (F : Type 0) : Type 0 where
  pub load : F → Option CalibrationState
  pub save : CalibrationState → F → F × Bool
  pub clear : F → F

-- `advance`
advance_from : Phase → ℕ → Bool → Phase
advance_from charge capacity charging = if leb 100 capacity then discharge else charge
advance_from discharge capacity charging =
    if not charging && leb capacity 10 then recharge else discharge
advance_from recharge capacity charging = recharge

unfoldable pub advance : CalibrationState → ℕ → Bool → CalibrationState
unfolding advance_from
advance c capacity charging = record c { phase = advance_from c.phase capacity charging }

-- What a command tells the user.
pub data Report : Type 0 where
  started : Option ℕ → Report
  progress : Phase → ℕ → Bool → Report
  restored : ℕ → Report
  left_at_full : Report

pub data Refusal : Type 0 where
  already_in_progress no_threshold not_started save_failed : Refusal
  lift_failed battery_failed : WattWardenError → Refusal
  restore_failed : ℕ → WattWardenError → Refusal

pub data Outcome : Type 0 where
  reported : Report → Outcome
  refused : Refusal → Outcome

-- `.ok()`
abbrev pub to_option : Result ℕ → Option ℕ
to_option (ok v) = some v
to_option (err e) = none

abbrev saved_of : Option CalibrationState → Option ℕ
saved_of none = none
saved_of (some c) = c.saved_threshold

module _ {S F : Type 0} where
  saved_report : Option ℕ → F × Bool → S → S × F × Outcome
  saved_report saved (f, true) s = (s, f, reported (started saved))
  saved_report saved (f, false) s = (s, f, refused save_failed)

  lifted : StateFile F → Option ℕ → S × Done → F → S × F × Outcome
  unfolding saved_report
  lifted file saved (s, ok u) f =
      saved_report saved (file.save (record { saved_threshold = saved; phase = charge }) f) s
  lifted file saved (s, err e) f = (s, f, refused (lift_failed e))

  start_fresh : ChargeThreshold S → StateFile F → Option CalibrationState → S → F → S × F × Outcome
  unfolding lifted
  start_fresh threshold file (some c) s f = (s, f, refused already_in_progress)
  start_fresh threshold file none s f =
      if not (threshold.supports_threshold s)
      then (s, f, refused no_threshold)
      else lifted file (to_option (threshold.charge_threshold s))
          (threshold.set_charge_threshold 100 s) f

  -- Phase 1: lift the ceiling to 100% and remember what it was.
  unfoldable pub start : ChargeThreshold S → StateFile F → S → F → S × F × Outcome
  unfolding start_fresh
  start threshold file s f = start_fresh threshold file (file.load f) s f

  restore : ChargeThreshold S → StateFile F → ℕ → S × Done → F → S × F × Outcome
  restore threshold file t (s, ok u) f = (s, file.clear f, reported (restored t))
  restore threshold file t (s, err e) f = (s, f, refused (restore_failed t e))

  finish_from :
      ChargeThreshold S → StateFile F → Option CalibrationState → Option ℕ → S → F → S × F × Outcome
  unfolding restore
  finish_from threshold file none t s f = (s, f, refused not_started)
  finish_from threshold file (some c) (some t) s f =
      restore threshold file t (threshold.set_charge_threshold t s) f
  finish_from threshold file (some c) none s f = (s, file.clear f, reported left_at_full)

  -- Final phase: restore the previous threshold and forget the state.
  unfoldable pub finish : ChargeThreshold S → StateFile F → S → F → S × F × Outcome
  unfolding finish_from
  finish threshold file s f = finish_from threshold file (file.load f) (saved_of (file.load f)) s f

module _ {F : Type 0} where
  progress_report : CalibrationState → ℕ → Bool → F × Bool → F × Outcome
  progress_report c capacity charging (f, true) = (f, reported (progress c.phase capacity charging))
  progress_report c capacity charging (f, false) = (f, refused save_failed)

  observe : StateFile F → CalibrationState → Result ℕ → Bool → F → F × Outcome
  unfolding progress_report
  observe file c (err e) charging f = (f, refused (battery_failed e))
  observe file c (ok capacity) charging f =
      let c' = advance c capacity charging in progress_report c' capacity charging (file.save c' f)

module _ {S F : Type 0} where
  status_from : PowerSource S → StateFile F → Option CalibrationState → S → F → F × Outcome
  unfolding observe
  status_from battery file none s f = (f, refused not_started)
  status_from battery file (some c) s f =
      observe file c (battery.battery_percentage s) (unwrap_or false (battery.is_charging s)) f

  -- Phase walking: observe the gauge and tell the user what comes next.
  unfoldable pub status : PowerSource S → StateFile F → S → F → F × Outcome
  unfolding status_from
  status battery file s f = status_from battery file (file.load f) s f
