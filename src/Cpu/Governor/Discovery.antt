-- ===== src/Cpu/Governor/Discovery.antt =====
-- The CPUs that `with_root` finds, in what order.
use mathlib.Core.Logic.{inl, inr}
use wattwarden.Base.{
  ℕ, ◌≤◌, ◌<◌, subst, ==_iff, List, [], ◌∷◌, leb, ◌==◌, Bool-cases, arith, filter_map,
}
use wattwarden.Sysfs.{World, cpu_base}
use wattwarden.Cpu.Governor.{with_root, insert_sorted, sort, dedup, dedup_after, cpu_number}

-- Each number is below the one after it, so none stands twice.
abbrev Above : ℕ → List ℕ → Type 0
Above x [] = Unit
Above x (y ∷ ys) = (x < y) × Above y ys

abbrev pub IsAscending : List ℕ → Type 0
IsAscending [] = Unit
IsAscending (x ∷ xs) = Above x xs

abbrev AtLeast : ℕ → List ℕ → Type 0
AtLeast x [] = Unit
AtLeast x (y ∷ ys) = (x ≤ y) × AtLeast y ys

abbrev IsSorted : List ℕ → Type 0
IsSorted [] = Unit
IsSorted (x ∷ xs) = AtLeast x xs

insert_sorted-AtLeast :
    (b x : ℕ) (xs : List ℕ) → b ≤ x → AtLeast b xs → AtLeast b (insert_sorted x xs)
unfolding insert_sorted
insert_sorted-AtLeast b x [] h k = (h, tt)
insert_sorted-AtLeast b x (y ∷ ys) h k = elim (Bool-cases (leb x y)) [
  | inl low ↦ ground (arith, low)
  | inr high ↦ ground (arith, high, insert_sorted-AtLeast y x ys)
]

insert_sorted-IsSorted : (x : ℕ) (xs : List ℕ) → IsSorted xs → IsSorted (insert_sorted x xs)
unfolding insert_sorted
insert_sorted-IsSorted x [] k = tt
insert_sorted-IsSorted x (y ∷ ys) k = elim (Bool-cases (leb x y)) [
  | inl low ↦ ground (arith, low)
  | inr high ↦ ground (arith, high, insert_sorted-AtLeast y x ys)
]

sort-IsSorted : (xs : List ℕ) → IsSorted (sort xs)
unfolding sort
sort-IsSorted [] = tt
sort-IsSorted (x ∷ xs) = insert_sorted-IsSorted x (sort xs) (sort-IsSorted xs)

dedup_after-Above : (x : ℕ) (ys : List ℕ) → AtLeast x ys → Above x (dedup_after x ys)
unfolding dedup_after
dedup_after-Above x [] h = tt
dedup_after-Above x (y ∷ ys) h = elim (Bool-cases (y == x)) [
  | inl same ↦
      rw same
        (subst (λ z. Above z (dedup_after y ys)) ((==_iff y x).0 same) (dedup_after-Above y ys h.1))
  | inr new ↦ ground (arith, new, dedup_after-Above y ys)
]

dedup-IsAscending : (xs : List ℕ) → IsSorted xs → IsAscending (dedup xs)
unfolding dedup
dedup-IsAscending [] h = tt
dedup-IsAscending (x ∷ xs) h = dedup_after-Above x xs h

-- The discovered CPU numbers are strictly ascending, whatever the directory holds.
pub with_root-IsAscending : (w : World) → IsAscending (with_root w).discovered
unfolding with_root
with_root-IsAscending w =
    let numbers = filter_map cpu_number (w.tree.names cpu_base) in
    dedup-IsAscending (sort numbers) (sort-IsSorted numbers)
