-- ===== src/Aspm.antt =====
-- crates/wattwarden-platform/src/linux/aspm.rs. Neither method returns an error.
pub mod Advertised
use wattwarden.Base.{
  ℕ, ◌≤◌, Text, text, text_eq, is_empty, Bool, true, false, ◌&&◌, ◌||◌, not, Option, none, some,
  List, [], ◌∷◌, any, keep, map, find_first, if◌then◌else◌, ◌==◌, split_whitespace, trim,
  trim_matches, starts_with, ends_with, leb, length,
}
use wattwarden.Sysfs.{World, Os, aspm_policy, read, exists, write_best_effort}

-- The controller has no state of its own.
pub data LinuxAspm : Type 0 where
  aspm : LinuxAspm

-- `with_root`: `InterfaceNotFound` is `none`.
unfoldable pub with_root : World → Option LinuxAspm
with_root w = if exists w aspm_policy then some aspm else none

abbrev is_bracket : ℕ → Bool
is_bracket c = (c == b'[') || (c == b']')

-- The policies that the kernel advertises, brackets stripped.
unfoldable pub available_policies : World → List Text
available_policies w =
    keep (λ word. not (is_empty word))
      (map (trim_matches is_bracket) (split_whitespace (read w aspm_policy)))

is_nil : List Text → Bool
is_nil [] = true
is_nil (x ∷ xs) = false

-- A policy that is offered, or `default` where it is.
choose : List Text → Text → Option Text
unfolding is_nil
choose available policy =
    if is_nil available || any (λ a. text_eq a policy) available
    then some policy
    else find_first (λ a. text_eq a (text "default")) available

unfoldable pub resolve_policy : World → Text → Option Text
unfolding choose
resolve_policy w policy = choose (available_policies w) policy

abbrev drop_last : Text → Text
drop_last [] = []
drop_last (c ∷ []) = []
drop_last (c ∷ (d ∷ s)) = c ∷ drop_last (d ∷ s)

-- `&word[1..word.len() - 1]`
abbrev inner : Text → Text
inner [] = []
inner (c ∷ s) = drop_last s

abbrev bracketed : Text → Bool
bracketed word = starts_with word (text "[") && ends_with word (text "]") && leb 2 (length word)

first_bracketed : List Text → Text → Text
first_bracketed [] raw = raw
first_bracketed (word ∷ words) raw =
    let later = first_bracketed words raw in if bracketed word then inner word else later

-- The first word in brackets, else the trimmed content.
unfoldable pub parse_aspm_policy : Text → Text
unfolding first_bracketed
parse_aspm_policy content = first_bracketed (split_whitespace content) (trim content)

unfoldable pub policy : World → Text
policy w = parse_aspm_policy (read w aspm_policy)

write_policy : Os → Option Text → World → World
write_policy os none w = w
write_policy os (some p) w = write_best_effort os aspm_policy p w

unfoldable pub set_aspm_policy : Os → Text → World → World
unfolding write_policy
set_aspm_policy os policy w = write_policy os (resolve_policy w policy) w
