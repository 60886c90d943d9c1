-- ===== src/Sysfs/Machine.antt =====
-- The machine as the backend sees it, and the reads, writes and commands of `SysfsRoot` and `cmd`.
use wattwarden.Base.{
  ℕ, ◌^◌, Text, Bool, Option, none, some, List, [], ◌∷◌, ◌++◌, ℤ, trim, parse_i64, parse_unsigned,
}
use wattwarden.Sysfs.Nodes.{Node, Dir}

-- What the machine shows at one moment: a node's content where it can be read, whether it exists,
-- the sorted names in a directory, and what a command prints on its standard output.
pub record Tree : Type 0 where
  pub content : Node → Option Text
  pub present : Node → Bool
  pub names : Dir → List Text
  pub output : List Text → Text
  -- `available_parallelism` is a `NonZeroUsize`: one more than this.
  pub more_cpus : ℕ

-- What the backend does to the machine.
pub data Effect : Type 0 where
  write : Node → Text → Effect
  run : List Text → Effect

pub data Reply : Type 0 where
  accepted permission_denied io_error : Reply

-- The machine and the effects so far, oldest first.
pub record World : Type 0 where
  pub tree : Tree
  pub log : List Effect

-- How the machine answers an effect, in the light of all that came before.
abbrev pub Os : Type 0
Os = World → Effect → Tree × Reply

abbrev pub perform : Os → Effect → World → World × Reply
perform os e w = let (t, r) = os w e in (record { tree = t; log = w.log ++ (e ∷ []) }, r)

-- `write_best_effort`: an error is swallowed.
unfoldable pub write_best_effort : Os → Node → Text → World → World
write_best_effort os p s w = (perform os (write p s) w).0

-- `cmd::run_ignored`
unfoldable pub run_ignored : Os → List Text → World → World
run_ignored os argv w = (perform os (run argv) w).0

-- `cmd::run_capture`: trimmed, and empty on any failure. The commands captured only report.
unfoldable pub run_capture : World → List Text → Text
run_capture w argv = trim (w.tree.output argv)

abbrev pub trimmed : Option Text → Text
trimmed none = []
trimmed (some s) = trim s

-- `read`: trimmed content, or the empty text when the node is missing or unreadable.
unfoldable pub read : World → Node → Text
read w p = trimmed (w.tree.content p)

unfoldable pub exists : World → Node → Bool
exists w p = w.tree.present p

unfoldable pub read_u64 : World → Node → Option ℕ
read_u64 w p = parse_unsigned (2 ^ 64) (read w p)

unfoldable pub read_i64 : World → Node → Option ℤ
read_i64 w p = parse_i64 (read w p)
