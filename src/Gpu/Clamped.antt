-- ===== src/Gpu/Clamped.antt =====
-- Every GPU frequency that is written lies in the range that the card declares.
use wattwarden.Base.{
  ℕ, ◌≤◌, ◌<◌, ◌≡◌, Text, Bool, Option, none, some, arith, clamp, clamp_bounds, to_string,
}
use wattwarden.Sysfs.{
  World, Os, Effect, write, GpuLeaf, drm, gt_min_freq_mhz, gt_max_freq_mhz, gt_rpn_freq_mhz,
  gt_rp0_freq_mhz, exists,
}
use wattwarden.Sysfs.Issues.{Issues, stop, Issues-trans, Issues-write, Issues-if}
use wattwarden.Gpu.{
  Card, LinuxGpu, card_read, range_of, write_card, card_write, discovered_gpu_bounds, set_gpu_freq,
}

-- A write of the floor `lo`, or of a limit in `lo..=hi`, in MHz.
pub data IsGpuWrite (lo hi : ℕ) : Effect → Type 0 where
  floor :
      (name : Text) (device : Bool)
      → IsGpuWrite lo hi (write (drm name device gt_min_freq_mhz) (to_string lo))
  limit :
      (name : Text) (device : Bool) (mhz : ℕ)
      → lo ≤ mhz
      → mhz ≤ hi
      → IsGpuWrite lo hi (write (drm name device gt_max_freq_mhz) (to_string mhz))

range_of-lt : (a b : Option ℕ) {lo hi : ℕ} → range_of a b ≡ some (lo, hi) → lo < hi
unfolding range_of
range_of-lt none b e = ground arith
range_of-lt (some a) none e = ground arith
range_of-lt (some a) (some b) e = ground arith

pub discovered_gpu_bounds-lt :
    (g : LinuxGpu) (w : World) {lo hi : ℕ} → discovered_gpu_bounds g w ≡ some (lo, hi) → lo < hi
unfolding discovered_gpu_bounds
discovered_gpu_bounds-lt g w e =
    range_of-lt (card_read g w gt_rpn_freq_mhz) (card_read g w gt_rp0_freq_mhz) e

Issues-write_card :
    {P : Effect → Type 0} (os : Os) (card : Option Card) (leaf : GpuLeaf) (value : ℕ) {w : World}
    → ((name : Text) (device : Bool) → P (write (drm name device leaf) (to_string value)))
    → Issues os P w (write_card os card leaf value w)
unfolding write_card
Issues-write_card os none leaf value h = stop
Issues-write_card os (some c) leaf value {w} h =
    Issues-if (exists w (drm c.name c.device leaf))
      (Issues-write (drm c.name c.device leaf) (to_string value) (h c.name c.device)) stop

-- On a card with a discovered range, `set_gpu_freq` issues nothing but the range's floor and one
-- limit inside the range, whatever frequency is asked for and however the kernel answers.
pub set_gpu_freq-Issues :
    (os : Os) (g : LinuxGpu) (mhz : ℕ) (w : World) {lo hi : ℕ}
    → discovered_gpu_bounds g w ≡ some (lo, hi)
    → Issues os (IsGpuWrite lo hi) w (set_gpu_freq os g mhz w)
unfolding set_gpu_freq card_write
set_gpu_freq-Issues os g mhz w {lo} {hi} e =
    let inside = clamp_bounds mhz lo hi (omega (arith, discovered_gpu_bounds-lt g w e)) in
    rw e (
      Issues-trans (Issues-write_card os g.card gt_min_freq_mhz lo floor) (
        Issues-write_card os g.card gt_max_freq_mhz (clamp mhz lo hi)
          (λ name device. limit name device (clamp mhz lo hi) inside.0 inside.1)))

-- With no discovered range nothing is written.
pub set_gpu_freq-none :
    (os : Os) (g : LinuxGpu) (mhz : ℕ) (w : World)
    → discovered_gpu_bounds g w ≡ none
    → set_gpu_freq os g mhz w ≡ w
unfolding set_gpu_freq
set_gpu_freq-none os g mhz w e = rw e
