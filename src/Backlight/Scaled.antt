-- ===== src/Backlight/Scaled.antt =====
-- The raw brightness that is written never exceeds the maximum of its device.
use native.Mathlib.Nat.{mod-eq_of_lt}
use wattwarden.Base.{
  ℕ, ◌*◌, ◌/◌, ◌≤◌, ◌<◌, ◌^◌, ◌≡◌, refl, ◌∙◌, ap, sym, Text, text, List, [], ◌∷◌, ◌++◌, ℤ, pos,
  negsuc, ltb_ℤ, mul_i64, signed64, lt→ltb, div_i64, arith, clamp, clamp_bounds, to_string,
  to_string_ℤ, true, Bool-cases, inl, inr, each, pos_part, append-nil, append_assoc, if◌then◌else◌,
}
use wattwarden.Sysfs.{
  World, Os, Node, Effect, write, run, brightness, max_brightness, write_best_effort, run_ignored,
}
use wattwarden.Sysfs.Issues.{Issues, stop, Issues-trans, Issues-write, Issues-run}
use wattwarden.Sysfs.Stable.{Same, Same-refl, Same-trans, Keeps, Same-of_Issues, read_i64-Same}
use wattwarden.Backlight.{max_of, or_zero, write_device, set_brightness_percent, devices}

pub data IsMaxBrightness : Node → Type 0 where
  max_node : (device : Text) → IsMaxBrightness (max_brightness device)

-- A write of `p` percent of the device's maximum in `w`, rounded down, or the call of the tool.
pub data IsBrightnessWrite (w : World) (p : ℕ) : Effect → Type 0 where
  raw :
      (device : Text) (maximum : ℕ)
      → max_of w device ≡ pos maximum
      → 0 < maximum
      → p * maximum / 100 ≤ maximum
      → IsBrightnessWrite w p (write (brightness device) (to_string (p * maximum / 100)))
  tool :
      IsBrightnessWrite w p
        (run (text "brightnessctl" ∷ text "set" ∷ (to_string p ++ text "%") ∷ []))

-- The write to one device, where its maximum in `w` is positive, and those to each of a list.
pub brightness_write : World → ℕ → Text → List Effect
brightness_write w p device =
    if ltb_ℤ (pos 0) (max_of w device)
    then write (brightness device) (to_string (p * pos_part (max_of w device) / 100)) ∷ []
    else []

pub brightness_writes : World → ℕ → List Text → List Effect
brightness_writes w p [] = []
brightness_writes w p (d ∷ ds) = brightness_write w p d ++ brightness_writes w p ds

max_of-Same :
    {w w' : World}
    → Same IsMaxBrightness w w'
    → (device : Text) → max_of w' device ≡ max_of w device
unfolding max_of
max_of-Same s device = ap or_zero (read_i64-Same s (max_brightness device) (max_node device))

in_range : (n : ℕ) → n < 2 ^ 63 → div_i64 (signed64 n) 100 ≡ pos (n / 100)
in_range n h = rw (lt→ltb n (2 ^ 63) h)

-- The product does not overflow where the maximum is an `int` of the kernel.
scaled :
    (p m : ℕ) → p ≤ 100 → m < 2 ^ 31 → div_i64 (mul_i64 (pos p) (pos m)) 100 ≡ pos (p * m / 100)
scaled p m h k =
    let product : p * m ≤ 100 * m = grind arith in
    rw
      (
        mod-eq_of_lt {n = p} {m = 2 ^ 64} (omega arith),
        mod-eq_of_lt {n = m} {m = 2 ^ 64} (omega arith),
        mod-eq_of_lt {n = p * m} {m = 2 ^ 64} (omega arith),
      )
      (in_range (p * m) (omega arith))

within : (p m : ℕ) → p ≤ 100 → p * m / 100 ≤ m
within p m h = let product : p * m ≤ 100 * m = grind arith in omega (arith, product)

pub positive_max : (z : ℤ) → ltb_ℤ (pos 0) z ≡ true → (m : ℕ) × (z ≡ pos m) × (0 < m)
positive_max (pos m) e = (m, refl, ground arith)
positive_max (negsuc m) e = ground arith

-- What is assumed of the kernel: its `max_brightness` is an `int`.
abbrev pub HasIntMaxima : World → Type 0
HasIntMaxima w = (device : Text) (m : ℕ) → max_of w device ≡ pos m → m < 2 ^ 31

module _ (os : Os) (w : World) (p : ℕ) (hp : p ≤ 100) (small : HasIntMaxima w)
    (keeps : Keeps os (IsBrightnessWrite w p) IsMaxBrightness) where
  write_device-Issues :
      (device : Text) (v : World)
      → Same IsMaxBrightness w v
      → Issues os (IsBrightnessWrite w p) v (write_device os p device v)
  unfolding write_device
  write_device-Issues device v s = elim (Bool-cases (ltb_ℤ (pos 0) (max_of v device))) [
    | inl up ↦
        let (m, e, h) = positive_max (max_of v device) up in
        let e' : max_of w device ≡ pos m = sym (max_of-Same s device) ∙ e in
        let value : to_string_ℤ (div_i64 (mul_i64 (pos p) (max_of v device)) 100)
            ≡ to_string (p * m / 100) =
          ap (λ z. to_string_ℤ (div_i64 (mul_i64 (pos p) z) 100)) e
          ∙ ap to_string_ℤ (scaled p m hp (small device m e'))
          ∙ unfold to_string_ℤ in refl in
        rw (up, value)
          (Issues-write (brightness device) (to_string (p * m / 100))
            (raw device m e' h (within p m hp)))
    | inr down ↦ rw down stop
  ]

  each-Issues :
      (ds : List Text) (v : World)
      → Same IsMaxBrightness w v
      → Issues os (IsBrightnessWrite w p) v (each (write_device os p) ds v)
  each-Issues [] v s = stop
  each-Issues (d ∷ ds) v s =
      let first = write_device-Issues d v s in
      Issues-trans first
        (each-Issues ds (write_device os p d v) (Same-trans s (Same-of_Issues keeps first)))

  write_device-log :
      (device : Text) (v : World)
      → Same IsMaxBrightness w v
      → (write_device os p device v).log ≡ v.log ++ brightness_write w p device
  unfolding write_device brightness_write write_best_effort
  write_device-log device v s =
      let same = max_of-Same s device in
      elim (Bool-cases (ltb_ℤ (pos 0) (max_of w device))) [
        | inl up ↦
            let (m, e, h) = positive_max (max_of w device) up in
            let up' : ltb_ℤ (pos 0) (pos m) ≡ true = ap (ltb_ℤ (pos 0)) (sym e) ∙ up in
            let value : to_string_ℤ (div_i64 (mul_i64 (pos p) (pos m)) 100)
                ≡ to_string (p * m / 100) =
              ap to_string_ℤ (scaled p m hp (small device m e)) ∙ unfold to_string_ℤ in refl in
            rw (same, e, up', value) refl
        | inr down ↦ rw (same, down) (sym (append-nil v.log))
      ]

  each-log :
      (ds : List Text) (v : World)
      → Same IsMaxBrightness w v
      → (each (write_device os p) ds v).log ≡ v.log ++ brightness_writes w p ds
  unfolding brightness_writes
  each-log [] v s = sym (append-nil v.log)
  each-log (d ∷ ds) v s =
      let first = write_device-Issues d v s in
      each-log ds (write_device os p d v) (Same-trans s (Same-of_Issues keeps first))
      ∙ ap (λ l. l ++ brightness_writes w p ds) (write_device-log d v s)
      ∙ append_assoc v.log (brightness_write w p d) (brightness_writes w p ds)

-- `set_brightness_percent` brings the percentage into 1..=100, writes to each device with a positive
-- maximum, in order, that percentage of its maximum, rounded down, and then calls `brightnessctl` with
-- it; nothing else, and no value exceeds its device's maximum. The maxima are assumed to be an `int`
-- each and not to change under the writes.
pub set_brightness_percent-Issues :
    (os : Os) (percent : ℕ) (w : World)
    → HasIntMaxima w
    → Keeps os (IsBrightnessWrite w (clamp percent 1 100)) IsMaxBrightness
    → let p = clamp percent 1 100 in
      (1 ≤ p)
      × (p ≤ 100)
      × Issues os (IsBrightnessWrite w p) w (set_brightness_percent os percent w)
      × ((set_brightness_percent os percent w).log
          ≡ w.log
            ++ brightness_writes w p (devices w)
            ++ (run (text "brightnessctl" ∷ text "set" ∷ (to_string p ++ text "%") ∷ []) ∷ []))
unfolding set_brightness_percent run_ignored
set_brightness_percent-Issues os percent w small keeps =
    let p = clamp percent 1 100 in
    let inside = clamp_bounds percent 1 100 (omega arith) in
    let call = text "brightnessctl" ∷ text "set" ∷ (to_string p ++ text "%") ∷ [] in
    (
      inside.0,
      inside.1,
      Issues-trans (each-Issues os w p inside.1 small keeps (devices w) w Same-refl)
          (Issues-run call tool),
      ap (λ l. l ++ (run call ∷ [])) (each-log os w p inside.1 small keeps (devices w) w Same-refl),
    )
