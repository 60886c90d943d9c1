-- ===== src/Core/BatteryHealth.antt =====
-- crates/wattwarden-core/src/battery_health.rs: what the gauge of a battery reports of its ageing.
use wattwarden.Base.{ℕ, zero, suc, ◌/◌, Text, text, Bool, false, Option, none, some}
use wattwarden.Core.Float.{Float}

pub data HealthUnit : Type 0 where
  charge_uah energy_uwh : HealthUnit

unfoldable pub display_label : HealthUnit → Text
display_label charge_uah = text "mAh"
display_label energy_uwh = text "mWh"

-- Micro units to display units.
unfoldable pub scale_to_display : HealthUnit → ℕ → ℕ
scale_to_display unit micro = micro / 1000

pub record BatteryHealth (F : Type 0) : Type 0 where
  pub present : Bool
  pub full : Option ℕ
  pub design : Option ℕ
  pub unit : Option HealthUnit
  pub cycle_count : Option ℕ
  pub temp_c : Option F
  pub model : Option Text
  pub manufacturer : Option Text
  pub serial : Option Text

-- `Default`
abbrev pub default_health : {F : Type 0} → BatteryHealth F
default_health = record {
  present = false;
  full = none;
  design = none;
  unit = none;
  cycle_count = none;
  temp_c = none;
  model = none;
  manufacturer = none;
  serial = none;
}

module _ {F : Type 0} where
  percentage : Float F → Option ℕ → Option ℕ → Option F
  percentage float (some f) (some zero) = none
  percentage float (some f) (some (suc d)) = some (
      float.div
        (float.round
          (float.div (float.mul (float.of_nat f) (float.of_nat 1000)) (float.of_nat (suc d))))
        (float.of_nat 10))
  percentage float (some f) none = none
  percentage float none d = none

  -- Full over design capacity in percent, with one decimal.
  unfoldable pub health_pct : Float F → BatteryHealth F → Option F
  unfolding percentage
  health_pct float h = percentage float h.full h.design
