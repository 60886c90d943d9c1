-- ===== src/Gpu.antt =====
-- crates/wattwarden-platform/src/linux/gpu.rs: the frequency limit of the first DRM card that has
-- one. The methods that return a `Result` never return an error, so the model leaves the `Ok` out.
pub mod Clamped
use wattwarden.Base.{
  ℕ, ◌^◌, Text, text, text_eq, is_empty, Bool, true, false, ◌&&◌, not, Option, none, some, List, [],
  ◌∷◌, ◌++◌, keep, any, leb, is_digit, clamp, if◌then◌else◌, strip_prefix, parse_unsigned,
  to_string,
}
use wattwarden.Sysfs.{
  World, Os, Node, GpuLeaf, gt_max_freq_mhz, gt_min_freq_mhz, gt_rpn_freq_mhz, gt_rp0_freq_mhz, drm,
  drm_base, read, exists, write_best_effort,
}

abbrev pub fallback_min_mhz : ℕ
fallback_min_mhz = 300

abbrev pub fallback_max_mhz : ℕ
fallback_max_mhz = 1100

all_digits : Text → Bool
all_digits [] = true
all_digits (c ∷ s) = is_digit c && all_digits s

is_card_number : Option Text → Bool
unfolding all_digits
is_card_number none = false
is_card_number (some digits) = not (is_empty digits) && all_digits digits

-- `card0`, but not `card1-HDMI-A-1` or `renderD128`.
unfoldable pub is_card_dir : Text → Bool
unfolding is_card_number
is_card_dir name = is_card_number (strip_prefix name (text "card"))

-- A card's directory, or its `device` link.
pub record Card : Type 0 where
  pub name : Text
  pub device : Bool

pub record LinuxGpu : Type 0 where
  pub card : Option Card

abbrev lists : List Text → Text → Bool
lists cards name = any (λ c. text_eq c name) cards

prefer : List Text → List Text → List Text
prefer cards [] = []
prefer cards (name ∷ names) =
    let rest = prefer cards names in if lists cards name then name ∷ rest else rest

-- The loop that pushes every card that is not there yet.
push_new : List Text → List Text → List Text
push_new ordered [] = ordered
push_new ordered (card ∷ cards) =
    push_new (if lists ordered card then ordered else ordered ++ (card ∷ [])) cards

unfoldable pub ordered_cards : World → List Text
unfolding prefer push_new
ordered_cards w =
    let cards = keep is_card_dir (w.tree.names drm_base) in
    push_new (prefer cards (text "card1" ∷ text "card0" ∷ [])) cards

-- The frequency node stands at the card's root, or under its `device` link.
probe : World → Text → Option Card
probe w name =
    if exists w (drm name false gt_max_freq_mhz)
    then some (record { name = name; device = false })
    else if exists w (drm name true gt_max_freq_mhz)
    then some (record { name = name; device = true })
    else none

abbrev or_next : Option Card → Option Card → Option Card
or_next none later = later
or_next (some c) later = some c

discover_in : World → List Text → Option Card
unfolding probe
discover_in w [] = none
discover_in w (name ∷ names) = or_next (probe w name) (discover_in w names)

abbrev controller : Option Card → Option LinuxGpu
controller none = none
controller (some c) = some (record { card = some c })

-- `with_root`: `InterfaceNotFound` is `none`.
unfoldable pub with_root : World → Option LinuxGpu
unfolding discover_in
with_root w = controller (discover_in w (ordered_cards w))

parse_u32 : Text → Option ℕ
parse_u32 raw = if is_empty raw then none else parse_unsigned (2 ^ 32) raw

read_card : World → Option Card → GpuLeaf → Option ℕ
unfolding parse_u32
read_card w none leaf = none
read_card w (some c) leaf = parse_u32 (read w (drm c.name c.device leaf))

unfoldable pub card_read : LinuxGpu → World → GpuLeaf → Option ℕ
unfolding read_card
card_read g w leaf = read_card w g.card leaf

write_card : Os → Option Card → GpuLeaf → ℕ → World → World
write_card os none leaf value w = w
write_card os (some c) leaf value w =
    if exists w (drm c.name c.device leaf)
    then write_best_effort os (drm c.name c.device leaf) (to_string value) w
    else w

unfoldable pub card_write : Os → LinuxGpu → GpuLeaf → ℕ → World → World
unfolding write_card
card_write os g leaf value w = write_card os g.card leaf value w

range_of : Option ℕ → Option ℕ → Option (ℕ × ℕ)
range_of none hi = none
range_of (some lo) none = none
range_of (some lo) (some hi) = if leb hi lo then none else some (lo, hi)

unfoldable pub discovered_gpu_bounds : LinuxGpu → World → Option (ℕ × ℕ)
unfolding range_of
discovered_gpu_bounds g w = range_of (card_read g w gt_rpn_freq_mhz) (card_read g w gt_rp0_freq_mhz)

abbrev or_else : Option ℕ → Option ℕ → ℕ → ℕ
or_else (some v) other default = v
or_else none (some v) default = v
or_else none none default = default

bounds_with : LinuxGpu → World → Option Card → ℕ × ℕ
bounds_with g w none = (fallback_min_mhz, fallback_max_mhz)
bounds_with g w (some c) = (
  or_else (card_read g w gt_rpn_freq_mhz) (card_read g w gt_min_freq_mhz) fallback_min_mhz,
  or_else (card_read g w gt_rp0_freq_mhz) (card_read g w gt_max_freq_mhz) fallback_max_mhz,
)

-- For display only.
unfoldable pub gpu_bounds : LinuxGpu → World → ℕ × ℕ
unfolding bounds_with
gpu_bounds g w = bounds_with g w g.card

unfoldable pub gpu_freq : LinuxGpu → World → ℕ
gpu_freq g w = or_else (card_read g w gt_max_freq_mhz) none 0

set_within : Os → LinuxGpu → ℕ → Option (ℕ × ℕ) → World → World
set_within os g mhz none w = w
set_within os g mhz (some (lo, hi)) w =
    card_write os g gt_max_freq_mhz (clamp mhz lo hi) (card_write os g gt_min_freq_mhz lo w)

-- The software minimum first, then the user limit.
unfoldable pub set_gpu_freq : Os → LinuxGpu → ℕ → World → World
unfolding set_within
set_gpu_freq os g mhz w = set_within os g mhz (discovered_gpu_bounds g w) w
