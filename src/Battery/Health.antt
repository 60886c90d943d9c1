-- ===== src/Battery/Health.antt =====
-- crates/wattwarden-platform/src/linux/battery.rs: the ageing of the battery. A figure that the
-- machine does not expose stays `none`.
use wattwarden.Base.{
  ℕ, ◌^◌, Text, text, true, ◌||◌, not, Option, none, some, ltb, is_empty, is_some, if◌then◌else◌, ℤ,
  parse_unsigned,
}
use wattwarden.Core.Float.{Float}
use wattwarden.Core.BatteryHealth.{
  BatteryHealth, default_health, HealthUnit, charge_uah, energy_uwh,
}
use wattwarden.Sysfs.{
  World, SupplyLeaf, supply, supply_node, charge_full, charge_full_design, energy_full,
  energy_full_design, cycle_count, temp, model_name, manufacturer, serial_number, read_u64,
  read_i64,
}
use wattwarden.Core.Error.{Result, ok}
use wattwarden.Battery.{LinuxBattery, bat}
use wattwarden.Battery.Power.{parse_uevent, uevent_get}

pub record Capacities : Type 0 where
  pub full : Option ℕ
  pub design : Option ℕ
  pub unit : Option HealthUnit

abbrev parse_u64 : Text → Option ℕ
parse_u64 = parse_unsigned (2 ^ 64)

-- A pair of capacities of which one at least is there.
pair : HealthUnit → Option ℕ → Option ℕ → Capacities
pair unit full design = record { full = full; design = design; unit = some unit }

from_uevent : Text → Text → Text → Text → Capacities
unfolding pair
from_uevent u_full u_design e_full e_design =
    if not (is_empty u_full) || not (is_empty u_design)
    then pair charge_uah (parse_u64 u_full) (parse_u64 u_design)
    else if not (is_empty e_full) || not (is_empty e_design)
    then pair energy_uwh (parse_u64 e_full) (parse_u64 e_design)
    else record { full = none; design = none; unit = none }

from_nodes : Option ℕ → Option ℕ → Option ℕ → Option ℕ → Capacities → Capacities
unfolding pair
from_nodes c_full c_design e_full e_design other =
    if is_some c_full || is_some c_design
    then pair charge_uah c_full c_design
    else if is_some e_full || is_some e_design
    then pair energy_uwh e_full e_design
    else other

-- The pair of charges, of energies, or of the entries in `uevent`.
unfoldable pub capacities : LinuxBattery → World → Capacities
unfolding from_nodes from_uevent
capacities b w =
    let number = λ (leaf : SupplyLeaf). read_u64 w (supply_node (supply b.battery) leaf) in
    let e = parse_uevent b w in
    from_nodes (number charge_full) (number charge_full_design) (number energy_full)
      (number energy_full_design)
      (from_uevent (uevent_get e (text "POWER_SUPPLY_CHARGE_FULL"))
        (uevent_get e (text "POWER_SUPPLY_CHARGE_FULL_DESIGN"))
        (uevent_get e (text "POWER_SUPPLY_ENERGY_FULL"))
        (uevent_get e (text "POWER_SUPPLY_ENERGY_FULL_DESIGN")))

abbrev named : Text → Option Text
named s = if is_empty s then none else some s

-- `u32::try_from`
abbrev fits_u32 : Option ℕ → Option ℕ
fits_u32 none = none
fits_u32 (some n) = if ltb n (2 ^ 32) then some n else none

module _ {F : Type 0} (float : Float F) where
  open float use {div, of_nat, of_int}

  tenths : Option ℤ → Option F
  tenths none = none
  tenths (some t) = some (div (of_int t) (of_nat 10))

  measured : LinuxBattery → World → Capacities → BatteryHealth F
  unfolding tenths
  measured b w c = record {
    present = true;
    full = c.full;
    design = c.design;
    unit = c.unit;
    cycle_count = fits_u32 (read_u64 w (supply_node (supply b.battery) cycle_count));
    temp_c = tenths (read_i64 w (supply_node (supply b.battery) temp));
    model = named (bat b w model_name);
    manufacturer = named (bat b w manufacturer);
    serial = named (bat b w serial_number);
  }

  unfoldable pub health : LinuxBattery → World → Result (BatteryHealth F)
  unfolding measured
  health b w = ok (if b.discovered then measured b w (capacities b w) else default_health)
