-- ===== src/Threshold/Set/Sticks.antt =====
-- When `set_charge_threshold` succeeds.
use wattwarden.Base.{
  ℕ, ◌≤◌, ◌<◌, ◌≡◌, ◌↔◌, refl, ◌⊎◌, inl, inr, none, List, [], ◌∷◌, arith, clamp, ap, ◌∙◌, not, true,
}
use wattwarden.Sysfs.{World, Os, Node}
use wattwarden.Core.Error.{WattWardenError, Result, ok, err, Done}
use wattwarden.Threshold.Nodes.{ThresholdNode, LinuxChargeThreshold, nodes}
use wattwarden.Threshold.Set.{
  check_readback, read_back, lower_start, select_custom, write_sysfs_u64, write_node,
  read_sysfs_u64, Tally, count_result, write_all, outcome, apply_all, set_charge_threshold,
  supports_threshold, is_nil,
}

-- In the run over the nodes from `w` on, one of them took the value: right after its own write, the
-- hardware reports it.
abbrev pub TookValue : Os → ℕ → List ThresholdNode → World → Type 0
TookValue os value [] w = ⊥
TookValue os value (n ∷ ns) w =
    ((write_node os n value w).1 ≡ ok value)
      × (read_sysfs_u64 (write_node os n value w).0 n.end ≡ ok value)
    ⊎ TookValue os value ns (write_node os n value w).0

check_readback-ok :
    (value u : ℕ) (r : Result ℕ) → check_readback value r ≡ ok u → (u ≡ value) × (r ≡ ok value)
unfolding check_readback
check_readback-ok value u (ok s) e = ground arith
check_readback-ok value u (err x) e = cc

read_back-ok :
    (w : World) (end : Node) (value u : ℕ) (r : Done)
    → read_back w end value r ≡ ok u
    → (u ≡ value) × (read_sysfs_u64 w end ≡ ok value)
unfolding read_back
read_back-ok w end value u (ok x) e = check_readback-ok value u (read_sysfs_u64 w end) e
read_back-ok w end value u (err x) e = cc

write_node-ok :
    (os : Os) (n : ThresholdNode) (value u : ℕ) (w : World)
    → (write_node os n value w).1 ≡ ok u
    → (u ≡ value) × (read_sysfs_u64 (write_node os n value w).0 n.end ≡ ok value)
unfolding write_node
write_node-ok os n value u w e =
    let ready = lower_start os n.start value (select_custom os n.types w) in
    let written = write_sysfs_u64 os n.end value ready in
    read_back-ok written.0 n.end value u written.1 e

Result-cases {ℓ} :
    {A : Type ℓ} (r : Result A) → ((a : A) × (r ≡ ok a)) ⊎ ((e : WattWardenError) × (r ≡ err e))
Result-cases (ok a) = inl (a, refl)
Result-cases (err e) = inr (e, refl)

-- The tally counts a node exactly when one took the value.
count_result_mono : (r : Result ℕ) (tally : Tally) → tally.0 ≤ (count_result r tally).0
count_result_mono (ok v) (a, l) = omega arith
count_result_mono (err x) (a, l) = omega arith

write_all_mono :
    (os : Os) (value : ℕ) (ns : List ThresholdNode) (w : World) (tally : Tally)
    → tally.0 ≤ (write_all os value ns w tally).1.0
unfolding write_all
write_all_mono os value [] w tally = omega arith
write_all_mono os value (n ∷ ns) w tally =
    let done = write_node os n value w in
    omega (
      arith,
      count_result_mono done.1 tally,
      write_all_mono os value ns done.0 (count_result done.1 tally),
    )

write_all-TookValue :
    (os : Os) (value : ℕ) (ns : List ThresholdNode) (w : World) (tally : Tally)
    → 0 < (write_all os value ns w tally).1.0
    → (0 < tally.0) ⊎ TookValue os value ns w
unfolding write_all
write_all-TookValue os value [] w tally h = inl h
write_all-TookValue os value (n ∷ ns) w tally h = elim (Result-cases (write_node os n value w).1) [
  | inl (u, e) ↦
      let (same, reads) = write_node-ok os n value u w e in inr (inl (e ∙ ap ok same, reads))
  | inr (x, e) ↦ elim (write_all-TookValue os value ns (write_node os n value w).0 _ h) [
    | inl counted ↦ inl (rw e at counted)
    | inr later ↦ inr (inr later)
  ]
]

TookValue-write_all :
    (os : Os) (value : ℕ) (ns : List ThresholdNode) (w : World) (tally : Tally)
    → TookValue os value ns w
    → 0 < (write_all os value ns w tally).1.0
unfolding write_all
TookValue-write_all os value [] w tally h = absurd h
TookValue-write_all os value (n ∷ ns) w tally (inl (e, reads)) =
    let done = write_node os n value w in
    omega (arith, counted done.1 e, write_all_mono os value ns done.0 (count_result done.1 tally))
  where
    counted : (r : Result ℕ) → r ≡ ok value → 0 < (count_result r tally).0
    counted r e = rw e (omega arith)
TookValue-write_all os value (n ∷ ns) w tally (inr later) =
    TookValue-write_all os value ns (write_node os n value w).0
      (count_result (write_node os n value w).1 tally) later

outcome-ok : (tally : Tally) → (outcome tally ≡ ok tt) ↔ (0 < tally.0)
unfolding outcome
outcome-ok (a, l) = (λ e. ground arith, λ h. ground arith)

apply_all-TookValue :
    (os : Os) (threshold : ℕ) (ns : List ThresholdNode) (w : World)
    → ((apply_all os threshold ns w).1 ≡ ok tt) ↔ TookValue os (clamp threshold 20 100) ns w
unfolding apply_all
apply_all-TookValue os threshold [] w = (λ e. cc, λ h. absurd h)
apply_all-TookValue os threshold (n ∷ ns) w =
    let value = clamp threshold 20 100 in
    let final = write_all os value (n ∷ ns) w (0, none) in
    (
      λ e. elim (write_all-TookValue os value (n ∷ ns) w (0, none) ((outcome-ok final.1).0 e)) [
        | inl none_yet ↦ absurd (omega arith)
        | inr took ↦ took
      ],
      λ took. (outcome-ok final.1).1 (TookValue-write_all os value (n ∷ ns) w (0, none) took),
    )

-- `set_charge_threshold` succeeds exactly when one of the nodes, at its turn in the loop, accepts the
-- ceiling (what was asked for, brought into 20..=100) and the hardware then reports that very value.
pub set_charge_threshold-TookValue :
    (os : Os) (t : LinuxChargeThreshold) (threshold : ℕ) (w : World)
    → ((set_charge_threshold os t threshold w).1 ≡ ok tt)
      ↔ TookValue os (clamp threshold 20 100) (nodes t w) w
unfolding set_charge_threshold
set_charge_threshold-TookValue os t threshold w = apply_all-TookValue os threshold (nodes t w) w

-- Hardware without a node for the threshold takes no value.
pub supports_threshold-ok :
    (os : Os) (t : LinuxChargeThreshold) (threshold : ℕ) (w : World)
    → (set_charge_threshold os t threshold w).1 ≡ ok tt
    → supports_threshold t w ≡ true
unfolding set_charge_threshold supports_threshold
supports_threshold-ok os t threshold w e = supported (nodes t w) e
  where
    supported :
        (ns : List ThresholdNode) → (apply_all os threshold ns w).1 ≡ ok tt → not (is_nil ns) ≡ true
    supported [] e = absurd (cc)
    supported (n ∷ ns) e = refl
