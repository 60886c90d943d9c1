-- ===== src/Rapl/Bounds.antt =====
-- The discovered ranges of the power constraints.
use wattwarden.Base.{
  ℕ, ◌≤◌, ◌<◌, ◌^◌, ◌≡◌, Text, Option, none, some, List, [], ◌∷◌, filter_map, push_some, arith, All,
  some-eq, subst, refl,
}
use wattwarden.Sysfs.{World, zone, constraint_max_power_uw, constraint_min_power_uw, read_u64}
use wattwarden.Rapl.{
  LinuxRapl, or_zero, range_of, constraint_index_in, constraint_bounds_watts_in, bounds_at,
  bounds_in, union, reduce_from, reduce, bounds_of,
}

range_of-lt :
    (o : Option ℕ) (m : ℕ) {lo hi : ℕ} → range_of o m ≡ some (lo, hi) → (lo < hi) × (hi < 2 ^ 32)
unfolding range_of
range_of-lt none m e = ground arith
range_of-lt (some max_uw) m e = ground arith

-- A constraint's range is not degenerate, and fits its type.
pub constraint_bounds-lt :
    (w : World) (domain : Text) (i : ℕ) {lo hi : ℕ}
    → constraint_bounds_watts_in w domain i ≡ some (lo, hi)
    → (lo < hi) × (hi < 2 ^ 32)
unfolding constraint_bounds_watts_in
constraint_bounds-lt w domain i e =
    range_of-lt (read_u64 w (zone domain (constraint_max_power_uw i)))
      (or_zero (read_u64 w (zone domain (constraint_min_power_uw i)))) e

union_covers :
    (a b : ℕ × ℕ)
    → ((union a b).0 ≤ a.0) × (a.1 ≤ (union a b).1) × ((union a b).0 ≤ b.0) × (b.1 ≤ (union a b).1)
union_covers a b = omega arith

-- The first range contains the second.
abbrev pub Covers : ℕ × ℕ → ℕ × ℕ → Type 0
Covers a b = (a.0 ≤ b.0) × (b.1 ≤ a.1)

reduce_from-Covers :
    (acc : ℕ × ℕ) (rs : List (ℕ × ℕ))
    → Covers (reduce_from acc rs) acc × All (Covers (reduce_from acc rs)) rs
unfolding reduce_from
reduce_from-Covers acc [] = ((omega arith, omega arith), tt)
reduce_from-Covers acc (r ∷ rs) =
    let (wide, rest) = reduce_from-Covers (union acc r) rs in
    (
      (omega (arith, wide.0, wide.1), omega (arith, wide.0, wide.1)),
      ((omega (arith, wide.0, wide.1), omega (arith, wide.0, wide.1)), rest),
    )

-- What the range of a zone is, where it has one, lies inside `b`.
abbrev pub Inside : ℕ × ℕ → Option (ℕ × ℕ) → Type 0
Inside b none = Unit
Inside b (some r) = Covers b r

filter_map-Inside :
    (b : ℕ × ℕ) (f : Text → Option (ℕ × ℕ)) (ds : List Text)
    → All (Covers b) (filter_map f ds)
    → All (λ d. Inside b (f d)) ds
filter_map-Inside b f [] h = tt
filter_map-Inside b f (d ∷ ds) h =
    let (first, others) = split (f d) (filter_map f ds) h in
    (first, filter_map-Inside b f ds others)
  where
    split :
        (o : Option (ℕ × ℕ)) (rs : List (ℕ × ℕ))
        → All (Covers b) (push_some o rs)
        → Inside b o × All (Covers b) rs
    split none rs k = (tt, k)
    split (some r) rs k = k

reduce-Covers : (rs : List (ℕ × ℕ)) (b : ℕ × ℕ) → reduce rs ≡ some b → All (Covers b) rs
unfolding reduce
reduce-Covers [] b e = cc
reduce-Covers (r ∷ rs) b e =
    subst (λ c. All (Covers c) (r ∷ rs)) (some-eq (reduce_from r rs) b e) (reduce_from-Covers r rs)

-- The range that is shown and scaled in covers the range that each zone declares for the
-- constraint.
pub bounds_of-Covers :
    (r : LinuxRapl) (w : World) (name : Text) (b : ℕ × ℕ)
    → bounds_of r w name ≡ some b
    → All (λ domain. Inside b (bounds_in w name domain)) r.domains
unfolding bounds_of
bounds_of-Covers r w name b e =
    filter_map-Inside b (bounds_in w name) r.domains
      (reduce-Covers (filter_map (bounds_in w name) r.domains) b e)

IsProper : ℕ × ℕ → Type 0
IsProper r = (r.0 < r.1) × (r.1 < 2 ^ 32)

reduce_from-IsProper :
    (acc : ℕ × ℕ) (rs : List (ℕ × ℕ))
    → IsProper acc
    → All IsProper rs
    → IsProper (reduce_from acc rs)
unfolding reduce_from IsProper
reduce_from-IsProper acc [] h k = h
reduce_from-IsProper acc (r ∷ rs) h k =
    reduce_from-IsProper (union acc r) rs
      (omega (arith, h.0, h.1, k.0.0, k.0.1), omega (arith, h.0, h.1, k.0.0, k.0.1)) k.1

bounds_in-IsProper :
    (w : World) (name domain : Text) {r : ℕ × ℕ} → bounds_in w name domain ≡ some r → IsProper r
unfolding bounds_in IsProper
bounds_in-IsProper w name domain e = at_slot (constraint_index_in w domain name) e
  where
    at_slot :
        (slot : Option ℕ) {r : ℕ × ℕ}
        → bounds_at w domain slot ≡ some r
        → (r.0 < r.1) × (r.1 < 2 ^ 32)
    at_slot none e = cc
    at_slot (some i) e = constraint_bounds-lt w domain i e

filter_map-IsProper :
    (w : World) (name : Text) (ds : List Text) → All IsProper (filter_map (bounds_in w name) ds)
filter_map-IsProper w name [] = tt
filter_map-IsProper w name (d ∷ ds) =
    join (bounds_in w name d) (λ r e. bounds_in-IsProper w name d e)
      (filter_map (bounds_in w name) ds) (filter_map-IsProper w name ds)
  where
    join :
        (o : Option (ℕ × ℕ))
        → ((r : ℕ × ℕ) → o ≡ some r → IsProper r)
        → (rs : List (ℕ × ℕ)) → All IsProper rs
        → All IsProper (push_some o rs)
    join none f rs k = k
    join (some r) f rs k = (f r refl, k)

reduce-IsProper :
    (rs : List (ℕ × ℕ)) (b : ℕ × ℕ) → All IsProper rs → reduce rs ≡ some b → IsProper b
unfolding reduce
reduce-IsProper [] b h e = cc
reduce-IsProper (r ∷ rs) b h e =
    subst IsProper (some-eq (reduce_from r rs) b e) (reduce_from-IsProper r rs h.0 h.1)

-- A union of ranges is not degenerate either.
pub bounds_of-lt :
    (r : LinuxRapl) (w : World) (name : Text) {lo hi : ℕ}
    → bounds_of r w name ≡ some (lo, hi)
    → (lo < hi) × (hi < 2 ^ 32)
unfolding bounds_of IsProper
bounds_of-lt r w name {lo} {hi} e =
    reduce-IsProper (filter_map (bounds_in w name) r.domains) (lo, hi)
      (filter_map-IsProper w name r.domains) e
