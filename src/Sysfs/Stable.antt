-- ===== src/Sysfs/Stable.antt =====
-- Nodes that the machine leaves alone: what a reader of them sees does not change.
use wattwarden.Base.{◌≡◌, refl, ◌∙◌, ap, ◌^◌, parse_unsigned, parse_i64}
use wattwarden.Sysfs.Nodes.{Node}
use wattwarden.Sysfs.Machine.{World, Effect, Os, perform, read, read_u64, read_i64, trimmed}
use wattwarden.Sysfs.Issues.{Issues, stop, step}

-- The nodes of the kind `Q` have the same content in both, and the number of CPUs is the same.
pub record Same (Q : Node → Type 0) (w w' : World) : Type 0 where
  pub same : (p : Node) → Q p → w'.tree.content p ≡ w.tree.content p
  pub same_cpus : w'.tree.more_cpus ≡ w.tree.more_cpus

-- What is assumed of the kernel: an effect of the kind `P` changes no node of the kind `Q`.
pub record Keeps (os : Os) (P : Effect → Type 0) (Q : Node → Type 0) : Type 0 where
  pub keeps : (w : World) (e : Effect) → P e → Same Q w (perform os e w).0

module _ {Q : Node → Type 0} where
  pub Same-refl : {w : World} → Same Q w w
  Same-refl = record { same = λ p q. refl; same_cpus = refl }

  pub Same-trans : {u v w : World} → Same Q u v → Same Q v w → Same Q u w
  Same-trans a b = record {
    same = λ p q. b.same p q ∙ a.same p q;
    same_cpus = b.same_cpus ∙ a.same_cpus;
  }

  pub Same-of_Issues :
      {os : Os} {P : Effect → Type 0}
      → Keeps os P Q
      → {w w' : World} → Issues os P w w'
      → Same Q w w'
  Same-of_Issues k stop = Same-refl
  Same-of_Issues k {w} (step e h i) = Same-trans (k.keeps w e h) (Same-of_Issues k i)

  pub read-Same : {w w' : World} → Same Q w w' → (p : Node) → Q p → read w' p ≡ read w p
  unfolding read
  read-Same s p q = ap trimmed (s.same p q)

  pub read_u64-Same : {w w' : World} → Same Q w w' → (p : Node) → Q p → read_u64 w' p ≡ read_u64 w p
  unfolding read_u64
  read_u64-Same s p q = ap (parse_unsigned (2 ^ 64)) (read-Same s p q)

  pub read_i64-Same : {w w' : World} → Same Q w w' → (p : Node) → Q p → read_i64 w' p ≡ read_i64 w p
  unfolding read_i64
  read_i64-Same s p q = ap parse_i64 (read-Same s p q)

pub Keeps_mono :
    {os : Os} (P P' : Effect → Type 0) (Q Q' : Node → Type 0)
    → ((e : Effect) → P' e → P e)
    → ((p : Node) → Q' p → Q p)
    → Keeps os P Q
    → Keeps os P' Q'
Keeps_mono P P' Q Q' f g k = record {
  keeps = λ w e h.
      let s = k.keeps w e (f e h) in
      record { same = λ p q. s.same p (g p q); same_cpus = s.same_cpus };
}

pub Same-mono :
    (Q Q' : Node → Type 0) → ((p : Node) → Q' p → Q p) → {w w' : World} → Same Q w w' → Same Q' w w'
Same-mono Q Q' g s = record { same = λ p q. s.same p (g p q); same_cpus = s.same_cpus }
