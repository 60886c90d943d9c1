-- ===== src/Rapl/Writes.antt =====
-- Every power limit that is written lies in the range of its own constraint.
use mathlib.Core.Path.{fun_ext}
use wattwarden.Base.{
  ℕ, ◌*◌, ◌≤◌, ◌≡◌, ◌≢◌, refl, sym, ap, ◌∙◌, Text, Option, none, some, List, [], ◌∷◌, arith, clamp,
  clamp_bounds, to_string, find_first, Bool-cases, inl, inr, text_eq,
}
use wattwarden.Sysfs.{
  World, Os, Effect, write, Node, zone, constraint_name, constraint_max_power_uw,
  constraint_min_power_uw, constraint_power_limit_uw, write_best_effort, exists,
}
use wattwarden.Sysfs.Issues.{Issues, stop, Issues-trans, Issues-write}
use wattwarden.Sysfs.Stable.{Same, Same-refl, Same-trans, Keeps, read-Same, read_u64-Same}
use wattwarden.Rapl.{
  LinuxRapl, constraint_index_in, constraint_bounds_watts_in, constraint_slots, Written,
  get_or_insert, write_limit, write_slot, write_zones, write_constraint,
}
use wattwarden.Rapl.Bounds.{constraint_bounds-lt}

-- The nodes that describe a constraint, and the one that the backend writes.
pub data IsConstraint : Node → Type 0 where
  is_name : (domain : Text) (i : ℕ) → IsConstraint (zone domain (constraint_name i))
  is_max : (domain : Text) (i : ℕ) → IsConstraint (zone domain (constraint_max_power_uw i))
  is_min : (domain : Text) (i : ℕ) → IsConstraint (zone domain (constraint_min_power_uw i))

pub data IsPowerLimit : Effect → Type 0 where
  is_limit :
      (domain : Text) (i : ℕ) (s : Text)
      → IsPowerLimit (write (zone domain (constraint_power_limit_uw i)) s)

-- A write of the limit of the constraint called `name` in some zone, inside the range that the zone
-- declares in `w`; the value is in microwatts.
pub data IsPowerWrite (w : World) (name : Text) : Effect → Type 0 where
  limit :
      (domain : Text) (i lo hi watts : ℕ)
      → constraint_index_in w domain name ≡ some i
      → constraint_bounds_watts_in w domain i ≡ some (lo, hi)
      → lo ≤ watts
      → watts ≤ hi
      → IsPowerWrite w name
          (write (zone domain (constraint_power_limit_uw i)) (to_string (watts * 1000000)))

index-Same :
    {w w' : World}
    → Same IsConstraint w w'
    → (domain name : Text) → constraint_index_in w' domain name ≡ constraint_index_in w domain name
unfolding constraint_index_in
index-Same s domain name =
    ap (λ f. find_first f constraint_slots)
      (fun_ext (λ i.
        ap (λ t. text_eq t name)
          (read-Same s (zone domain (constraint_name i)) (is_name domain i))))

bounds-Same :
    {w w' : World}
    → Same IsConstraint w w'
    → (domain : Text) (i : ℕ)
    → constraint_bounds_watts_in w' domain i ≡ constraint_bounds_watts_in w domain i
unfolding constraint_bounds_watts_in
bounds-Same s domain i = rw (
  read_u64-Same s (zone domain (constraint_max_power_uw i)) (is_max domain i),
  read_u64-Same s (zone domain (constraint_min_power_uw i)) (is_min domain i),
)

module _ (os : Os) (keeps : Keeps os IsPowerLimit IsConstraint) (name : Text) (watts : ℕ)
    (w : World) where
  -- One zone, in a world `v` that shows the constraints of `w`: what is written is in range, and the
  -- constraints are still those of `w`.
  Round : World → World → Type 0
  Round v v' = Issues os (IsPowerWrite w name) v v' × Same IsConstraint w v'

  write_limit-Round :
      (domain : Text) (i : ℕ) (range : Option (ℕ × ℕ)) (v : World) (written : Option ℕ)
      → Same IsConstraint w v
      → constraint_index_in w domain name ≡ some i
      → constraint_bounds_watts_in w domain i ≡ range
      → Round v (write_limit os watts domain i range (v, written)).0
  unfolding write_limit Round
  write_limit-Round domain i none v written s hi hb = (stop, s)
  write_limit-Round domain i (some (lo, hi)) v written s found ranged =
      elim (Bool-cases (exists v (zone domain (constraint_power_limit_uw i)))) [
        | inl there ↦ rw there (
            let inside =
              clamp_bounds watts lo hi (omega (arith, constraint_bounds-lt w domain i ranged)) in
            let written = limit domain i lo hi (clamp watts lo hi) found ranged inside.0 inside.1 in
            (
              Issues-write (zone domain (constraint_power_limit_uw i)) _ written,
              Same-trans s (
                  unfold write_best_effort in
                  keeps.keeps v _ (is_limit domain i (to_string (clamp watts lo hi * 1000000)))),
            ))
        | inr absent ↦ rw absent (stop, s)
      ]

  write_slot-Round :
      (domain : Text) (slot : Option ℕ) (v : World) (written : Option ℕ)
      → Same IsConstraint w v
      → constraint_index_in w domain name ≡ slot
      → Round v (write_slot os watts domain slot (v, written)).0
  unfolding write_slot Round
  write_slot-Round domain none v written s found = (stop, s)
  write_slot-Round domain (some i) v written s found =
      write_limit-Round domain i (constraint_bounds_watts_in v domain i) v written s found
        (sym (bounds-Same s domain i))

  write_zones-Round :
      (domains : List Text) (v : World) (written : Option ℕ)
      → Same IsConstraint w v
      → Round v (write_zones os name watts domains (v, written)).0
  unfolding write_zones Round
  write_zones-Round [] v written s = (stop, s)
  write_zones-Round (domain ∷ rest) v written s =
      let done = write_slot os watts domain (constraint_index_in v domain name) (v, written) in
      let (issued, s') =
        write_slot-Round domain (constraint_index_in v domain name) v written s
          (sym (index-Same s domain name)) in
      let (later, s'') = write_zones-Round rest done.0 done.1 s' in (Issues-trans issued later, s'')

-- Where the kernel keeps the names and ranges of the constraints when a limit is written,
-- `write_constraint` issues nothing but limits of constraints of that name, each inside the range
-- that its own zone declares, whatever power is asked for.
pub write_constraint-Issues :
    (os : Os)
    → Keeps os IsPowerLimit IsConstraint
    → (r : LinuxRapl) (name : Text) (watts : ℕ) (w : World)
    → Issues os (IsPowerWrite w name) w (write_constraint os r name watts w).0
unfolding write_constraint Round
write_constraint-Issues os keeps r name watts w =
    (write_zones-Round os keeps name watts w r.domains w none Same-refl).0

-- `none` is only returned if the machine was not touched.
abbrev Untouched : Written → Written → Type 0
Untouched s s' = s'.1 ≡ none → s' ≡ s

get_or_insert-some : (written : Option ℕ) (v : ℕ) → get_or_insert written v ≢ none
get_or_insert-some none v e = cc
get_or_insert-some (some u) v e = cc

write_limit-Untouched :
    (os : Os) (watts : ℕ) (domain : Text) (i : ℕ) (range : Option (ℕ × ℕ)) (s : Written)
    → Untouched s (write_limit os watts domain i range s)
unfolding write_limit
write_limit-Untouched os watts domain i none s e = refl
write_limit-Untouched os watts domain i (some (lo, hi)) s e =
    ground (arith, get_or_insert-some s.1 (clamp watts lo hi))

write_slot-Untouched :
    (os : Os) (watts : ℕ) (domain : Text) (slot : Option ℕ) (s : Written)
    → Untouched s (write_slot os watts domain slot s)
unfolding write_slot
write_slot-Untouched os watts domain none s e = refl
write_slot-Untouched os watts domain (some i) s e =
    write_limit-Untouched os watts domain i (constraint_bounds_watts_in s.0 domain i) s e

write_zones-Untouched :
    (os : Os) (name : Text) (watts : ℕ) (domains : List Text) (s : Written)
    → Untouched s (write_zones os name watts domains s)
unfolding write_zones
write_zones-Untouched os name watts [] s e = refl
write_zones-Untouched os name watts (domain ∷ rest) s e =
    let done = write_slot os watts domain (constraint_index_in s.0 domain name) s in
    let later = write_zones-Untouched os name watts rest done e in
    later
    ∙ write_slot-Untouched os watts domain (constraint_index_in s.0 domain name) s
        (ap (λ t. t.1) (sym later) ∙ e)

-- `write_constraint` returns `None` only if it did nothing to the machine.
pub write_constraint-none :
    (os : Os) (r : LinuxRapl) (name : Text) (watts : ℕ) (w : World)
    → (write_constraint os r name watts w).1 ≡ none
    → (write_constraint os r name watts w).0 ≡ w
unfolding write_constraint
write_constraint-none os r name watts w e =
    ap (λ s. s.0) (write_zones-Untouched os name watts r.domains (w, none) e)
