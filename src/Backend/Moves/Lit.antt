-- ===== src/Backend/Moves/Lit.antt =====
-- The brightness of the display beside the moves.
use wattwarden.Base.{
  ℕ, Text, Option, none, some, List, [], ◌∷◌, ltb_ℤ, pos, arith, clamp, clamp_bounds, each,
  Bool-cases, inl, inr,
}
use wattwarden.Sysfs.{World, Os}
use wattwarden.Backlight.{max_of, devices, write_device, set_brightness_percent}
use wattwarden.Backlight.Scaled.{positive_max}
use wattwarden.Backend.{LinuxBackend, if_some}
use wattwarden.Backend.Moves.{Brightens, dimmed, raw, tool, LitMoves, unlit, brightened, halt}

module _ (os : Os) where
  Brightens-trans :
      (p : ℕ) {u v w : World} → Brightens os p u v → Brightens os p v w → Brightens os p u w
  Brightens-trans p dimmed n = n
  Brightens-trans p (raw device maximum e h m) n = raw device maximum e h (Brightens-trans p m n)
  Brightens-trans p (tool m) n = tool (Brightens-trans p m n)

  write_device-Brightens :
      (p : ℕ) (device : Text) (w : World) → Brightens os p w (write_device os p device w)
  unfolding write_device
  write_device-Brightens p device w = elim (Bool-cases (ltb_ℤ (pos 0) (max_of w device))) [
    | inl up ↦
        let (m, e, h) = positive_max (max_of w device) up in rw (up, e) (raw device m e h dimmed)
    | inr down ↦ rw down dimmed
  ]

  each-Brightens :
      (p : ℕ) (ds : List Text) (w : World) → Brightens os p w (each (write_device os p) ds w)
  each-Brightens p [] w = dimmed
  each-Brightens p (d ∷ ds) w =
      Brightens-trans p (write_device-Brightens p d w) (each-Brightens p ds _)

module _ (os : Os) (b : LinuxBackend) where
  pub set_brightness_percent-LitMoves :
      (percent : ℕ) (w : World) → LitMoves os b w (set_brightness_percent os percent w)
  unfolding set_brightness_percent
  set_brightness_percent-LitMoves percent w =
      let p = clamp percent 1 100 in
      let inside = clamp_bounds percent 1 100 (omega arith) in
      brightened p inside.0 inside.1
        (Brightens-trans os p (each-Brightens os p (devices w) w) (tool dimmed))

  pub if_some-LitMoves :
      {A : Type 0} (o : Option A) (f : A → World → World) (w : World)
      → ((a : A) (v : World) → LitMoves os b v (f a v))
      → LitMoves os b w (if_some o f w)
  if_some-LitMoves none f w h = unlit halt
  if_some-LitMoves (some a) f w h = h a w
