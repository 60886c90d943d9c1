-- ===== src/Battery.antt =====
-- crates/wattwarden-platform/src/linux/battery.rs: which battery the machine has, its charge and
-- whether it is charging.
pub mod Power
pub mod Health
use wattwarden.Base.{
  ℕ, Text, text, text_eq, Bool, true, false, ◌&&◌, ◌||◌, not, Option, none, some, List, [], ◌∷◌,
  any, find_first, if◌then◌else◌, ℤ, pos, clamp_ℤ,
}
use wattwarden.Sysfs.{
  World, SupplyLeaf, supply, supply_dir, supply_node, supply_type, supply_online, status, capacity,
  power_supply_base, read, read_i64, exists,
}
use wattwarden.Core.Error.{Result, ok}
use wattwarden.Core.Traits.{PowerSource}

pub record LinuxBattery : Type 0 where
  pub battery : Text
  pub discovered : Bool

abbrev standard_names : List Text
standard_names = text "BAT0" ∷ text "BAT1" ∷ text "BAT2" ∷ text "BATT" ∷ []

found_or : Option Text → LinuxBattery → LinuxBattery
found_or none other = other
found_or (some name) other = record { battery = name; discovered = true }

-- `discover`: a standard name, then a supply of the type `Battery`, then `BAT0`.
unfoldable pub discover : World → LinuxBattery
unfolding found_or
discover w = found_or (find_first (λ name. exists w (supply_dir (supply name))) standard_names) (
    found_or
      (find_first
        (λ name. text_eq (read w (supply_node (supply name) supply_type)) (text "Battery"))
        (w.tree.names power_supply_base))
      (record { battery = text "BAT0"; discovered = false }))

unfoldable pub with_root : World → LinuxBattery
with_root w = discover w

unfoldable pub has_battery : LinuxBattery → Bool
has_battery b = b.discovered

unfoldable pub is_stationary : LinuxBattery → Bool
is_stationary b = not b.discovered

unfoldable pub bat : LinuxBattery → World → SupplyLeaf → Text
bat b w leaf = read w (supply_node (supply b.battery) leaf)

abbrev or_zero : Option ℤ → ℤ
or_zero none = pos 0
or_zero (some v) = v

unfoldable pub battery_percentage : LinuxBattery → World → Result ℕ
battery_percentage b w =
    ok (clamp_ℤ (or_zero (read_i64 w (supply_node (supply b.battery) capacity))) 0 100)

-- A mains or USB supply that is online.
powers : World → Text → Bool
powers w name =
    let kind = read w (supply_node (supply name) supply_type) in
    (text_eq kind (text "Mains") || text_eq kind (text "USB_C") || text_eq kind (text "USB"))
    && text_eq (read w (supply_node (supply name) supply_online)) (text "1")

unfoldable pub is_charging : LinuxBattery → World → Result Bool
unfolding powers
is_charging b w = ok (
    if any (powers w) (w.tree.names power_supply_base)
    then true
    else text_eq (bat b w status) (text "Charging") || text_eq (bat b w status) (text "Full"))

-- The implementation of the interface.
abbrev pub linux_battery : LinuxBattery → PowerSource World
linux_battery b = record { battery_percentage = battery_percentage b; is_charging = is_charging b }
