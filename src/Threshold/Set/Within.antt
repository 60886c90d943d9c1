-- ===== src/Threshold/Set/Within.antt =====
-- What `set_charge_threshold` writes: the mode, a lowered start and the ceiling, to the nodes of the
-- machine and nowhere else.
use wattwarden.Base.{
  ℕ, ◌≤◌, ◌<◌, ◌≡◌, refl, ◌⊎◌, inl, inr, text, Option, none, some, List, [], ◌∷◌, arith, leb, clamp,
  to_string, contains,
}
use wattwarden.Sysfs.{World, Os, Effect, write, Node, read}
use wattwarden.Sysfs.Issues.{Issues, stop, Issues-trans, Issues-write, Issues-if, Issues-mono}
use wattwarden.Core.Error.{Result, ok, err}
use wattwarden.Threshold.Nodes.{ThresholdNode, LinuxChargeThreshold, nodes}
use wattwarden.Threshold.Set.{
  write_sysfs_u64, select_custom, custom, write_start, lower_start, new_start, write_node,
  read_sysfs_u64, Tally, count_result, write_all, apply_all, set_charge_threshold,
}

-- A write to the battery node `n` for the ceiling `value`.
pub data IsNodeWrite (n : ThresholdNode) (value : ℕ) : Effect → Type 0 where
  mode : (p : Node) → n.types ≡ some p → IsNodeWrite n value (write p custom)
  start :
      (p : Node) → n.start ≡ some p → IsNodeWrite n value (write p (to_string (new_start value)))
  ceiling : IsNodeWrite n value (write n.end (to_string value))

-- A write to one of the nodes.
abbrev pub IsThresholdWrite : List ThresholdNode → ℕ → Effect → Type 0
IsThresholdWrite [] value e = ⊥
IsThresholdWrite (n ∷ ns) value e = IsNodeWrite n value e ⊎ IsThresholdWrite ns value e

Issues-write_sysfs_u64 :
    {P : Effect → Type 0} (os : Os) (p : Node) (value : ℕ) {w : World}
    → P (write p (to_string value))
    → Issues os P w (write_sysfs_u64 os p value w).0
unfolding write_sysfs_u64
Issues-write_sysfs_u64 os p value h = Issues.step (write p (to_string value)) h stop

module _ (os : Os) (n : ThresholdNode) (value : ℕ) where
  select_custom-Issues :
      (types : Option Node) (w : World)
      → n.types ≡ types
      → Issues os (IsNodeWrite n value) w (select_custom os types w)
  unfolding select_custom
  select_custom-Issues none w e = stop
  select_custom-Issues (some p) w e =
      Issues-if (contains (read w p) (text "[Custom]")) stop (Issues-write p custom (mode p e))

  write_start-Issues :
      (p : Node) (r : Result ℕ) (w : World)
      → n.start ≡ some p
      → Issues os (IsNodeWrite n value) w (write_start os p value r w)
  unfolding write_start
  write_start-Issues p (ok s) w e =
      Issues-if (leb value s) (Issues-write_sysfs_u64 os p (new_start value) (start p e)) stop
  write_start-Issues p (err x) w e = stop

  lower_start-Issues :
      (path : Option Node) (w : World)
      → n.start ≡ path
      → Issues os (IsNodeWrite n value) w (lower_start os path value w)
  unfolding lower_start
  lower_start-Issues none w e = stop
  lower_start-Issues (some p) w e = write_start-Issues p (read_sysfs_u64 w p) w e

  write_node-Issues : (w : World) → Issues os (IsNodeWrite n value) w (write_node os n value w).0
  unfolding write_node
  write_node-Issues w = Issues-trans (select_custom-Issues n.types w refl) (
      Issues-trans (lower_start-Issues n.start (select_custom os n.types w) refl)
        (Issues-write_sysfs_u64 os n.end value ceiling))

write_all-Issues :
    (os : Os) (value : ℕ) (ns : List ThresholdNode) (w : World) (tally : Tally)
    → Issues os (IsThresholdWrite ns value) w (write_all os value ns w tally).0
unfolding write_all
write_all-Issues os value [] w tally = stop
write_all-Issues os value (n ∷ ns) w tally =
    let done = write_node os n value w in
    Issues-trans
      (Issues-mono (IsNodeWrite n value) (IsThresholdWrite (n ∷ ns) value) (λ e h. inl h)
        (write_node-Issues os n value w))
      (Issues-mono (IsThresholdWrite ns value) (IsThresholdWrite (n ∷ ns) value) (λ e h. inr h)
        (write_all-Issues os value ns done.0 (count_result done.1 tally)))

apply_all-Issues :
    (os : Os) (threshold : ℕ) (ns : List ThresholdNode) (w : World)
    → Issues os (IsThresholdWrite ns (clamp threshold 20 100)) w (apply_all os threshold ns w).0
unfolding apply_all
apply_all-Issues os threshold [] w = stop
apply_all-Issues os threshold (n ∷ ns) w = write_all-Issues os (clamp threshold 20 100) (n ∷ ns) w _

-- `set_charge_threshold` writes nothing but, on the nodes that it finds, the mode `Custom`, a start
-- threshold below the ceiling, and the ceiling, which lies in 20..=100 whatever is asked for.
pub set_charge_threshold-Issues :
    (os : Os) (t : LinuxChargeThreshold) (threshold : ℕ) (w : World)
    → (value : ℕ) × (20 ≤ value)
      × (value ≤ 100)
      × (new_start value < value)
      × Issues os (IsThresholdWrite (nodes t w) value) w (set_charge_threshold os t threshold w).0
unfolding set_charge_threshold
set_charge_threshold-Issues os t threshold w = (
  clamp threshold 20 100,
  ground arith,
  ground arith,
  ground arith,
  apply_all-Issues os threshold (nodes t w) w,
)
