-- ===== src/Threshold/Set.antt =====
-- `write_node`, `supports_threshold`, `charge_threshold` and `set_charge_threshold`, with
-- `read_sysfs_u64` and `write_sysfs_u64` of linux/sysfs.rs.
pub mod Within
pub mod Sticks
pub mod Reported
use wattwarden.Base.{
  ℕ, suc, ◌+◌, ◌-◌, ◌^◌, Text, text, Bool, true, false, not, Option, none, some, List, [], ◌∷◌, leb,
  ltb, ◌==◌, max, clamp, if◌then◌else◌, contains, trim, parse_unsigned, to_string,
}
use wattwarden.Sysfs.{
  World, Os, Node, Reply, accepted, permission_denied, io_error, write, perform, read,
  write_best_effort,
}
use wattwarden.Core.Error.{WattWardenError, io, parse_int, unsupported, Result, ok, err, Done}
use wattwarden.Core.Error
use wattwarden.Core.Traits.{ChargeThreshold}
use wattwarden.Threshold.Nodes.{ThresholdNode, LinuxChargeThreshold, nodes}

abbrev parsed : Option ℕ → Result ℕ
parsed none = err parse_int
parsed (some n) = ok n

abbrev parse_content : Option Text → Result ℕ
parse_content none = err io
parse_content (some s) = parsed (parse_unsigned (2 ^ 64) (trim s))

-- `read_sysfs_u64`: an unreadable node and a text that is no number are errors.
unfoldable pub read_sysfs_u64 : World → Node → Result ℕ
read_sysfs_u64 w p = parse_content (w.tree.content p)

abbrev reply_of : Reply → Done
reply_of accepted = ok tt
reply_of permission_denied = err Error.permission_denied
reply_of io_error = err io

-- `write_sysfs_u64`
unfoldable pub write_sysfs_u64 : Os → Node → ℕ → World → World × Done
write_sysfs_u64 os p value w =
    let (w', r) = perform os (write p (to_string value)) w in (w', reply_of r)

abbrev pub custom : Text
custom = text "Custom"

-- Dell-style controllers honour the thresholds only in `Custom` mode.
select_custom : Os → Option Node → World → World
select_custom os none w = w
select_custom os (some types_path) w =
    if contains (read w types_path) (text "[Custom]")
    then w
    else write_best_effort os types_path custom w

-- `value.saturating_sub(5).max(1)`
abbrev pub new_start : ℕ → ℕ
new_start value = max (value - 5) 1

write_start : Os → Node → ℕ → Result ℕ → World → World
write_start os start_path value (ok s) w =
    if leb value s then (write_sysfs_u64 os start_path (new_start value) w).0 else w
write_start os start_path value (err e) w = w

-- The paired start threshold is lowered only if the kernel would reject the new end.
lower_start : Os → Option Node → ℕ → World → World
unfolding write_start
lower_start os none value w = w
lower_start os (some start_path) value w =
    write_start os start_path value (read_sysfs_u64 w start_path) w

check_readback : ℕ → Result ℕ → Result ℕ
check_readback value (ok readback) = if readback == value then ok readback else err unsupported
check_readback value (err e) = err e

read_back : World → Node → ℕ → Done → Result ℕ
unfolding check_readback
read_back w end value (ok u) = check_readback value (read_sysfs_u64 w end)
read_back w end value (err e) = err e

unfoldable pub write_node : Os → ThresholdNode → ℕ → World → World × Result ℕ
unfolding select_custom lower_start read_back
write_node os node value w =
    let ready = lower_start os node.start value (select_custom os node.types w) in
    let (w', r) = write_sysfs_u64 os node.end value ready in (w', read_back w' node.end value r)

is_nil : List ThresholdNode → Bool
is_nil [] = true
is_nil (n ∷ ns) = false

unfoldable pub supports_threshold : LinuxChargeThreshold → World → Bool
unfolding is_nil
supports_threshold t w = not (is_nil (nodes t w))

abbrev or_later : Result ℕ → Result ℕ → Result ℕ
or_later (ok val) later = ok (clamp val 1 100)
or_later (err e) later = later

-- The first node that can be read.
unfoldable pub first_threshold : World → List ThresholdNode → Result ℕ
first_threshold w [] = err unsupported
first_threshold w (n ∷ ns) = or_later (read_sysfs_u64 w n.end) (first_threshold w ns)

unfoldable pub charge_threshold : LinuxChargeThreshold → World → Result ℕ
unfolding first_threshold
charge_threshold t w = first_threshold w (nodes t w)

-- `applied` and `last_err` of the loop.
abbrev pub Tally : Type 0
Tally = ℕ × Option WattWardenError

abbrev count_result : Result ℕ → Tally → Tally
count_result (ok v) (applied, last_err) = (applied + 1, last_err)
count_result (err e) (applied, last_err) = (applied, some e)

write_all : Os → ℕ → List ThresholdNode → World → Tally → World × Tally
write_all os value [] w tally = (w, tally)
write_all os value (n ∷ ns) w tally =
    let (w', r) = write_node os n value w in write_all os value ns w' (count_result r tally)

abbrev or_unsupported : Option WattWardenError → WattWardenError
or_unsupported none = unsupported
or_unsupported (some e) = e

outcome : Tally → Done
outcome (applied, last_err) = if ltb 0 applied then ok tt else err (or_unsupported last_err)

apply_all : Os → ℕ → List ThresholdNode → World → World × Done
unfolding write_all outcome
apply_all os threshold [] w = (w, err unsupported)
apply_all os threshold (n ∷ ns) w =
    let (w', tally) = write_all os (clamp threshold 20 100) (n ∷ ns) w (0, none) in
    (w', outcome tally)

unfoldable pub set_charge_threshold : Os → LinuxChargeThreshold → ℕ → World → World × Done
unfolding apply_all
set_charge_threshold os t threshold w = apply_all os threshold (nodes t w) w

-- The implementation of the interface.
abbrev pub linux_threshold : Os → LinuxChargeThreshold → ChargeThreshold World
linux_threshold os t = record {
  supports_threshold = supports_threshold t;
  charge_threshold = charge_threshold t;
  set_charge_threshold = set_charge_threshold os t;
}
