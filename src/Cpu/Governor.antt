-- ===== src/Cpu/Governor.antt =====
-- `LinuxCpuGovernor::with_root`, `num_cpus` and `cpu_ids` of linux/cpu.rs.
pub mod Discovery
use wattwarden.Base.{
  ℕ, zero, suc, ◌+◌, ◌^◌, Text, text, Bool, Option, none, some, List, [], ◌∷◌, length, filter_map,
  leb, ◌==◌, if◌then◌else◌, strip_prefix, parse_unsigned, wrap_u32,
}
use wattwarden.Sysfs.{World, cpu_base}

pub record LinuxCpuGovernor : Type 0 where
  -- Numbers discovered under /sys/devices/system/cpu in ascending order.
  pub discovered : List ℕ

-- `sort_unstable` of a list of numbers.
insert_sorted : ℕ → List ℕ → List ℕ
insert_sorted x [] = x ∷ []
insert_sorted x (y ∷ ys) =
    let later = insert_sorted x ys in if leb x y then x ∷ (y ∷ ys) else y ∷ later

sort : List ℕ → List ℕ
sort [] = []
sort (x ∷ xs) = insert_sorted x (sort xs)

-- `dedup`: an element that equals the one before it is dropped.
dedup_after : ℕ → List ℕ → List ℕ
dedup_after x [] = []
dedup_after x (y ∷ ys) = let rest = dedup_after y ys in if y == x then rest else y ∷ rest

dedup : List ℕ → List ℕ
unfolding dedup_after
dedup [] = []
dedup (x ∷ xs) = x ∷ dedup_after x xs

parse_number : Option Text → Option ℕ
parse_number none = none
parse_number (some digits) = parse_unsigned (2 ^ 32) digits

-- The number of the directory `cpu{n}`.
cpu_number : Text → Option ℕ
unfolding parse_number parse_unsigned strip_prefix
cpu_number name = parse_number (strip_prefix name (text "cpu"))

unfoldable pub with_root : World → LinuxCpuGovernor
unfolding dedup sort insert_sorted cpu_number
with_root w = record { discovered = dedup (sort (filter_map cpu_number (w.tree.names cpu_base))) }

abbrev count_or : ℕ → List ℕ → ℕ
count_or n [] = n
count_or n (x ∷ xs) = length (x ∷ xs)

unfoldable pub num_cpus : LinuxCpuGovernor → World → ℕ
num_cpus g w = count_or (suc w.tree.more_cpus) g.discovered

-- The range `start..start + n`.
abbrev pub count_up : ℕ → ℕ → List ℕ
count_up start zero = []
count_up start (suc n) = start ∷ count_up (start + 1) n

abbrev ids_or : ℕ → List ℕ → List ℕ
ids_or n [] = count_up 0 (wrap_u32 n)
ids_or n (x ∷ xs) = x ∷ xs

unfoldable pub cpu_ids : LinuxCpuGovernor → World → List ℕ
unfolding num_cpus
cpu_ids g w = ids_or (num_cpus g w) g.discovered
