-- ===== src/Sysfs/Issues.antt =====
-- What a routine does to the machine: effects performed one after another, each of a stated kind.
use wattwarden.Base.{
  ◌≡◌, sym, ◌∙◌, Text, Bool, true, false, List, [], ◌∷◌, ◌++◌, append_assoc, append-nil, each, All,
  if◌then◌else◌,
}
use wattwarden.Sysfs.Nodes.{Node}
use wattwarden.Sysfs.Machine.{
  World, Effect, write, run, Os, perform, write_best_effort, run_ignored,
}

-- `w'` is reached from `w` by effects of the kind `P` and nothing else.
pub data Issues (os : Os) (P : Effect → Type 0) : World → World → Type 0 where
  stop : {w : World} → Issues os P w w
  step : {w w' : World} (e : Effect) → P e → Issues os P (perform os e w).0 w' → Issues os P w w'

module _ {os : Os} {P : Effect → Type 0} where
  pub Issues-trans : {u v w : World} → Issues os P u v → Issues os P v w → Issues os P u w
  Issues-trans stop j = j
  Issues-trans (step e h i) j = step e h (Issues-trans i j)

  pub Issues-write :
      (p : Node) (s : Text) {w : World} → P (write p s) → Issues os P w (write_best_effort os p s w)
  unfolding write_best_effort
  Issues-write p s h = step (write p s) h stop

  pub Issues-run :
      (argv : List Text) {w : World} → P (run argv) → Issues os P w (run_ignored os argv w)
  unfolding run_ignored
  Issues-run argv h = step (run argv) h stop

  pub Issues-if :
      (b : Bool) {u v w : World}
      → Issues os P u v
      → Issues os P u w
      → Issues os P u (if b then v else w)
  Issues-if true h k = h
  Issues-if false h k = k

  -- A loop over a list, each round of which issues effects of the kind.
  pub Issues-each {ℓ} :
      {A : Type ℓ} (body : A → World → World)
      → ((a : A) (w : World) → Issues os P w (body a w))
      → (xs : List A) (w : World) → Issues os P w (each body xs w)
  Issues-each body h [] w = stop
  Issues-each body h (x ∷ xs) w = Issues-trans (h x w) (Issues-each body h xs (body x w))

  -- What is in the log afterwards.
  pub Issues-log :
      {w w' : World} → Issues os P w w' → (es : List Effect) × (w'.log ≡ w.log ++ es) × All P es
  Issues-log {w} stop = ([], sym (append-nil w.log), tt)
  Issues-log {w} (step e h i) =
      let (es, extends, kind) = Issues-log i in
      (e ∷ es, extends ∙ append_assoc w.log (e ∷ []) es, (h, kind))

pub Issues-mono :
    {os : Os} (P Q : Effect → Type 0)
    → ((e : Effect) → P e → Q e)
    → {w w' : World} → Issues os P w w'
    → Issues os Q w w'
Issues-mono P Q f stop = stop
Issues-mono P Q f (step e h i) = step e (f e h) (Issues-mono P Q f i)
