-- ===== src/Cpu/Preference.antt =====
-- Turbo, the energy performance preference and the governor of linux/cpu.rs.
pub mod Advertised
pub mod Governors
use wattwarden.Base.{
  ℕ, suc, ◌+◌, ◌-◌, Text, text, text_eq, is_empty, Bool, true, false, ◌||◌, Option, none, some,
  List, [], ◌∷◌, any, filter_map, find_first, leb, ltb, if◌then◌else◌, each, split_whitespace,
  push_some,
}
use wattwarden.Sysfs.{
  World, Os, cpu, no_turbo, boost, energy_performance_preference,
  energy_performance_available_preferences, scaling_governor, scaling_available_governors, read,
  exists, write_best_effort,
}
use wattwarden.Cpu.Governor.{LinuxCpuGovernor, cpu_ids}

-- Most performance first.
abbrev pub epp_order : List Text
epp_order =
    text "performance"
    ∷ text "balance_performance"
    ∷ text "default"
    ∷ text "balance_power"
    ∷ text "power"
    ∷ []

unfoldable pub available_epp : World → List Text
available_epp w = split_whitespace (read w (cpu 0 energy_performance_available_preferences))

abbrev shift : Option ℕ → Option ℕ
shift none = none
shift (some i) = some (suc i)

-- `iter().position(|x| *x == s)`
position : Text → List Text → Option ℕ
position s [] = none
position s (x ∷ xs) = let later = shift (position s xs) in if text_eq x s then some 0 else later

unfoldable pub rank : Text → Option ℕ
unfolding position
rank s = position s epp_order

abbrev pub abs_diff : ℕ → ℕ → ℕ
abs_diff a b = if ltb a b then b - a else a - b

abbrev with_distance : ℕ → Text → Option ℕ → Option (ℕ × Text)
with_distance target a none = none
with_distance target a (some r) = some (abs_diff r target, a)

ranked : ℕ → Text → Option (ℕ × Text)
ranked target a = with_distance target a (rank a)

-- `min_by_key`: the first of the elements with the least key.
min_from : ℕ × Text → List (ℕ × Text) → ℕ × Text
min_from best [] = best
min_from best (x ∷ xs) = min_from (if leb best.0 x.0 then best else x) xs

min_by_key : List (ℕ × Text) → Option Text
unfolding min_from
min_by_key [] = none
min_by_key (x ∷ xs) = some (min_from x xs).1

closest : List Text → Option ℕ → Option Text
unfolding ranked min_by_key
closest available none = none
closest available (some target) = min_by_key (filter_map (ranked target) available)

is_nil : List Text → Bool
is_nil [] = true
is_nil (x ∷ xs) = false

unfoldable pub resolve_epp : World → Text → Option Text
unfolding closest is_nil
resolve_epp w pref =
    let available = available_epp w in
    if is_nil available || any (λ a. text_eq a pref) available
    then some pref
    else closest available (rank pref)

unfoldable pub available_governors : World → List Text
available_governors w = split_whitespace (read w (cpu 0 scaling_available_governors))

abbrev pub fallback_governors : List Text
fallback_governors = text "powersave" ∷ text "performance" ∷ text "schedutil" ∷ text "ondemand" ∷ []

unfoldable pub resolve_governor : World → Text → Option Text
unfolding is_nil
resolve_governor w gov =
    let available = available_governors w in
    if is_nil available || any (λ a. text_eq a gov) available
    then some gov
    else find_first (λ fallback. any (λ a. text_eq a fallback) available) fallback_governors

unfoldable pub turbo_enabled : World → Bool
turbo_enabled w =
    if exists w no_turbo
    then text_eq (read w no_turbo) (text "0")
    else if exists w boost
    then text_eq (read w boost) (text "1")
    else true

unfoldable pub set_turbo_enabled : Os → Bool → World → World
set_turbo_enabled os enabled w =
    if exists w no_turbo
    then write_best_effort os no_turbo (if enabled then text "0" else text "1") w
    else if exists w boost
    then write_best_effort os boost (if enabled then text "1" else text "0") w
    else w

-- The `Unsupported` error of a machine without the node is `none`.
unfoldable pub energy_preference : World → Option Text
energy_preference w =
    if exists w (cpu 0 energy_performance_preference)
    then some (read w (cpu 0 energy_performance_preference))
    else none

unfoldable pub write_epp : Os → Text → ℕ → World → World
write_epp os pref id w =
    if exists w (cpu id energy_performance_preference)
    then write_best_effort os (cpu id energy_performance_preference) pref w
    else w

unfoldable pub write_governor : Os → Text → ℕ → World → World
write_governor os gov id w =
    if exists w (cpu id scaling_governor)
    then write_best_effort os (cpu id scaling_governor) gov w
    else w

unfoldable pub write_governors : Os → LinuxCpuGovernor → Option Text → World → World
unfolding write_governor
write_governors os g none w = w
write_governors os g (some gov) w = each (write_governor os gov) (cpu_ids g w) w

-- The governor is resolved after the preferences are written, as in the source.
unfoldable pub write_preference : Os → LinuxCpuGovernor → Option Text → World → World
unfolding write_epp write_governors
write_preference os g none w = w
write_preference os g (some pref) w =
    let v = each (write_epp os pref) (cpu_ids g w) w in
    let requested =
      if text_eq pref (text "performance") then text "performance" else text "powersave" in
    write_governors os g (resolve_governor v requested) v

unfoldable pub set_energy_performance_preference : Os → LinuxCpuGovernor → Text → World → World
unfolding write_preference
set_energy_performance_preference os g pref w = write_preference os g (resolve_epp w pref) w
