-- ===== src/Threshold/Set/Reported.antt =====
-- What the reader reports after a successful write, on a machine with one threshold node.
use wattwarden.Base.{
  ℕ, ◌≤◌, ◌≡◌, refl, inl, inr, List, [], ◌∷◌, arith, subst, sym, ap, ◌∙◌, clamp, clamp_inside,
}
use wattwarden.Sysfs.{World, Os}
use wattwarden.Core.Error.{ok}
use wattwarden.Threshold.Nodes.{ThresholdNode, LinuxChargeThreshold, nodes}
use wattwarden.Threshold.Set.{
  read_sysfs_u64, write_node, first_threshold, charge_threshold, write_all, apply_all,
  set_charge_threshold,
}
use wattwarden.Threshold.Set.Sticks.{TookValue, set_charge_threshold-TookValue}

-- The one node of a run shows the value that it took.
took_one :
    (os : Os) (n : ThresholdNode) (value : ℕ) (ns : List ThresholdNode) (w : World)
    → ns ≡ n ∷ []
    → TookValue os value ns w
    → read_sysfs_u64 (write_node os n value w).0 n.end ≡ ok value
took_one os n value ns w e took = elim (subst (λ ms. TookValue os value ms w) e took) [
  | inl (_, reads) ↦ reads
  | inr none ↦ absurd none
]

world_one :
    (os : Os) (n : ThresholdNode) (limit : ℕ) (ns : List ThresholdNode) (w : World)
    → ns ≡ n ∷ []
    → (apply_all os limit ns w).0 ≡ (write_node os n (clamp limit 20 100) w).0
unfolding apply_all write_all
world_one os n limit ns w e = rw e refl

read_one :
    (n : ThresholdNode) (limit : ℕ) (ns : List ThresholdNode) (w : World)
    → 20 ≤ limit
    → limit ≤ 100
    → ns ≡ n ∷ []
    → read_sysfs_u64 w n.end ≡ ok limit
    → first_threshold w ns ≡ ok limit
unfolding first_threshold
read_one n limit ns w lo hi e reads =
    rw (e, reads) (ap ok (clamp_inside limit 1 100 (omega arith) hi))

module _ (os : Os) (t : LinuxChargeThreshold) (n : ThresholdNode) (limit : ℕ) (w w' : World) where
  -- On a machine whose one threshold node is the same before and after, a successful write of a limit
  -- in 20..=100 is what `charge_threshold` reports afterwards.
  pub charge_threshold-set_charge_threshold :
      20 ≤ limit
      → limit ≤ 100
      → nodes t w ≡ n ∷ []
      → nodes t w' ≡ n ∷ []
      → set_charge_threshold os t limit w ≡ (w', ok tt)
      → charge_threshold t w' ≡ ok limit
  unfolding set_charge_threshold charge_threshold
  charge_threshold-set_charge_threshold lo hi before after done =
      let value = clamp limit 20 100 in
      let took = (set_charge_threshold-TookValue os t limit w).0 (ap (λ s. s.1) done) in
      let reads = took_one os n value (nodes t w) w before took in
      let same : (write_node os n value w).0 ≡ w' =
        sym (world_one os n limit (nodes t w) w before) ∙ ap (λ s. s.0) done in
      read_one n limit (nodes t w') w' lo hi after (
        ap (λ v. read_sysfs_u64 v n.end) (sym same)
        ∙ reads
        ∙ ap ok (clamp_inside limit 20 100 lo hi))
