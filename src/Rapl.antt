-- ===== src/Rapl.antt =====
-- crates/wattwarden-platform/src/linux/rapl.rs: the powercap zones and their power limits. The
-- setters and getters never return an error, so the model leaves the `Ok` out.
pub mod Bounds
pub mod Writes
use wattwarden.Base.{
  ℕ, suc, ◌*◌, ◌/◌, ◌+◌, Text, text, text_eq, Bool, true, false, Option, none, some, List, [], ◌∷◌,
  keep, filter_map, find_first, leb, ◌==◌, min, max, clamp, if◌then◌else◌, wrap_u32, to_string,
}
use wattwarden.Sysfs.{
  World, Os, zone, constraint_name, constraint_max_power_uw, constraint_min_power_uw,
  constraint_power_limit_uw, min_power_range_uw, max_power_range_uw, powercap_base, read, read_u64,
  exists, write_best_effort,
}

abbrev pub fallback_min_watts : ℕ
fallback_min_watts = 5

abbrev pub fallback_max_watts : ℕ
fallback_max_watts = 115

-- Slots 0 to 4 inclusive.
abbrev pub constraint_slots : List ℕ
constraint_slots = 0 ∷ 1 ∷ 2 ∷ 3 ∷ 4 ∷ []

abbrev pub long_term : Text
long_term = text "long_term"

abbrev pub short_term : Text
short_term = text "short_term"

pub record LinuxRapl : Type 0 where
  -- The names of the discovered zones, sorted.
  pub domains : List Text

unfoldable pub discover_domains : World → List Text
discover_domains w =
    keep (λ name. exists w (zone name (constraint_name 0))) (w.tree.names powercap_base)

abbrev controller : List Text → Option LinuxRapl
controller [] = none
controller (d ∷ ds) = some (record { domains = d ∷ ds })

-- `with_root`: `InterfaceNotFound` is `none`.
unfoldable pub with_root : World → Option LinuxRapl
with_root w = controller (discover_domains w)

-- The slot of the constraint called `name`.
unfoldable pub constraint_index_in : World → Text → Text → Option ℕ
constraint_index_in w domain name =
    find_first (λ i. text_eq (read w (zone domain (constraint_name i))) name) constraint_slots

abbrev or_zero : Option ℕ → ℕ
or_zero none = 0
or_zero (some n) = n

watts : ℕ → ℕ
watts uw = wrap_u32 (uw / 1000000)

-- The range of a constraint from its two nodes; a missing, zero or degenerate one is `none`.
range_of : Option ℕ → ℕ → Option (ℕ × ℕ)
unfolding watts
range_of none min_uw = none
range_of (some max_uw) min_uw =
    if max_uw == 0
    then none
    else if leb (watts max_uw) (watts min_uw)
    then none
    else some (watts min_uw, watts max_uw)

unfoldable pub constraint_bounds_watts_in : World → Text → ℕ → Option (ℕ × ℕ)
unfolding range_of
constraint_bounds_watts_in w domain i =
    range_of (read_u64 w (zone domain (constraint_max_power_uw i)))
      (or_zero (read_u64 w (zone domain (constraint_min_power_uw i))))

bounds_at : World → Text → Option ℕ → Option (ℕ × ℕ)
bounds_at w domain none = none
bounds_at w domain (some i) = constraint_bounds_watts_in w domain i

unfoldable pub bounds_in : World → Text → Text → Option (ℕ × ℕ)
unfolding bounds_at
bounds_in w name domain = bounds_at w domain (constraint_index_in w domain name)

abbrev pub union : ℕ × ℕ → ℕ × ℕ → ℕ × ℕ
union a b = (min a.0 b.0, max a.1 b.1)

reduce_from : ℕ × ℕ → List (ℕ × ℕ) → ℕ × ℕ
reduce_from acc [] = acc
reduce_from acc (r ∷ rs) = reduce_from (union acc r) rs

-- `iter().reduce(union)`
reduce : List (ℕ × ℕ) → Option (ℕ × ℕ)
unfolding reduce_from
reduce [] = none
reduce (r ∷ rs) = some (reduce_from r rs)

unfoldable pub bounds_of : LinuxRapl → World → Text → Option (ℕ × ℕ)
unfolding reduce
bounds_of r w name = reduce (filter_map (bounds_in w name) r.domains)

-- The machine, and the value written to the first zone that accepted one.
abbrev pub Written : Type 0
Written = World × Option ℕ

-- `get_or_insert`
abbrev get_or_insert : Option ℕ → ℕ → Option ℕ
get_or_insert none v = some v
get_or_insert (some u) v = some u

write_limit : Os → ℕ → Text → ℕ → Option (ℕ × ℕ) → Written → Written
write_limit os watts domain i none (w, written) = (w, written)
write_limit os watts domain i (some (lo, hi)) (w, written) =
    if exists w (zone domain (constraint_power_limit_uw i))
    then (
      write_best_effort os (zone domain (constraint_power_limit_uw i))
          (to_string (clamp watts lo hi * 1000000)) w,
      get_or_insert written (clamp watts lo hi),
    )
    else (w, written)

write_slot : Os → ℕ → Text → Option ℕ → Written → Written
unfolding write_limit
write_slot os watts domain none s = s
write_slot os watts domain (some i) (w, written) =
    write_limit os watts domain i (constraint_bounds_watts_in w domain i) (w, written)

-- The loop over the zones; each reads its own range when its turn comes.
write_zones : Os → Text → ℕ → List Text → Written → Written
unfolding write_slot
write_zones os name watts [] s = s
write_zones os name watts (domain ∷ rest) (w, written) =
    write_zones os name watts rest
      (write_slot os watts domain (constraint_index_in w domain name) (w, written))

unfoldable pub write_constraint : Os → LinuxRapl → Text → ℕ → World → Written
unfolding write_zones
write_constraint os r name watts w = write_zones os name watts r.domains (w, none)

abbrev merge : Option (ℕ × ℕ) → Option (ℕ × ℕ) → Option (ℕ × ℕ)
merge acc none = acc
merge none (some r) = some r
merge (some a) (some r) = some (union a r)

package_range : Option ℕ → Option ℕ → Option (ℕ × ℕ)
unfolding watts
package_range (some lo) (some hi) = some (watts lo, watts hi)
package_range (some lo) none = none
package_range none hi = none

package_bounds : World → Option (ℕ × ℕ) → List Text → Option (ℕ × ℕ)
unfolding package_range
package_bounds w acc [] = acc
package_bounds w acc (domain ∷ rest) =
    package_bounds w
      (merge acc (
        package_range (read_u64 w (zone domain min_power_range_uw))
          (read_u64 w (zone domain max_power_range_uw))))
      rest

abbrev or_range : Option (ℕ × ℕ) → ℕ × ℕ → ℕ × ℕ
or_range none r = r
or_range (some b) r = b

-- `bounds` and `rapl_bounds`: for display only.
unfoldable pub rapl_bounds : LinuxRapl → World → ℕ × ℕ
unfolding package_bounds
rapl_bounds r w =
    or_range (merge (merge none (bounds_of r w long_term)) (bounds_of r w short_term))
      (or_range (package_bounds w none r.domains) (fallback_min_watts, fallback_max_watts))

unfoldable pub pl1_bounds_watts : LinuxRapl → World → Option (ℕ × ℕ)
pl1_bounds_watts r w = bounds_of r w long_term

unfoldable pub pl2_bounds_watts : LinuxRapl → World → Option (ℕ × ℕ)
pl2_bounds_watts r w = bounds_of r w short_term

limit_at : World → Text → Option ℕ → ℕ → ℕ
unfolding watts
limit_at w domain none other = other
limit_at w domain (some i) other =
    watts (or_zero (read_u64 w (zone domain (constraint_power_limit_uw i))))

-- The first zone that exposes the constraint is reported; 0 if there is none.
limit_in : World → Text → List Text → ℕ
unfolding limit_at
limit_in w name [] = 0
limit_in w name (domain ∷ rest) =
    limit_at w domain (constraint_index_in w domain name) (limit_in w name rest)

unfoldable pub get_limit : LinuxRapl → World → Text → ℕ
unfolding limit_in
get_limit r w name = limit_in w name r.domains

unfoldable pub pl1_watts : LinuxRapl → World → ℕ
pl1_watts r w = get_limit r w long_term

unfoldable pub pl2_watts : LinuxRapl → World → ℕ
pl2_watts r w = get_limit r w short_term

unfoldable pub set_pl1_watts : Os → LinuxRapl → ℕ → World → World
set_pl1_watts os r watts w = (write_constraint os r long_term watts w).0

unfoldable pub set_pl2_watts : Os → LinuxRapl → ℕ → World → World
set_pl2_watts os r watts w = (write_constraint os r short_term watts w).0
