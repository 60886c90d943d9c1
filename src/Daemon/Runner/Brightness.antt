-- ===== src/Daemon/Runner/Brightness.antt =====
-- The automatic brightness: its targets, and that it does not repeat itself.
use wattwarden.Base.{
  ◌+◌, ℕ, ◌≤◌, ◌≡◌, refl, inl, inr, ap, Text, Bool, true, false, not, ◌||◌, Option, none, some,
  arith, subst, clamp_inside, ◌==◌, ==_iff, Bool-cases,
}
use wattwarden.Sysfs.{World, Os}
use wattwarden.Core.Config.{Config, AutoExtremeLevel, low, medium, high}
use wattwarden.Backlight.{LinuxBacklight, brightness_percent, set_brightness_percent}
use wattwarden.Backend.{LinuxBackend}
use wattwarden.Daemon.Runner.{
  brighten, Runner, base_brightness, level_delta, target_brightness, same_as, show,
  apply_brightness_step,
}

base_brightness_bounds :
    (class : Text) → (12 ≤ base_brightness class) × (base_brightness class ≤ 30)
unfolding base_brightness
base_brightness_bounds class = (ground arith, ground arith)

level_delta_le : (level : AutoExtremeLevel) → level_delta level ≤ 20
unfolding level_delta
level_delta_le high = omega arith
level_delta_le medium = omega arith
level_delta_le low = omega arith

-- The bounds of `clamp` are out of reach.
target_brightness_sum :
    (config : Config) (class : Text)
    → target_brightness config class ≡ base_brightness class + level_delta config.auto_extreme_level
unfolding target_brightness
target_brightness_sum config class =
    let (Above, below) = base_brightness_bounds class in
    clamp_inside (base_brightness class + level_delta config.auto_extreme_level) 1 100
      (omega (arith, Above)) (omega (arith, below, level_delta_le config.auto_extreme_level))

-- For every window class the brightness lies in 12..=50, and a lower level of the ladder is ten
-- points brighter than the next one.
pub target_brightness_ordered :
    (config : Config) (class : Text)
    → (12 ≤ target_brightness config class)
      × (target_brightness config class ≤ 50)
      × (target_brightness (record config { auto_extreme_level = low }) class
          ≡ target_brightness (record config { auto_extreme_level = medium }) class + 10)
      × (target_brightness (record config { auto_extreme_level = medium }) class
          ≡ target_brightness (record config { auto_extreme_level = high }) class + 10)
unfolding level_delta
target_brightness_ordered config class =
    let (Above, below) = base_brightness_bounds class in
    let delta = level_delta_le config.auto_extreme_level in
    let sum = target_brightness_sum in
    (
      omega (arith, Above, sum config class),
      omega (arith, below, delta, sum config class),
      omega (
        arith,
        sum (record config { auto_extreme_level = low }) class,
        sum (record config { auto_extreme_level = medium }) class,
      ),
      omega (
        arith,
        sum (record config { auto_extreme_level = high }) class,
        sum (record config { auto_extreme_level = medium }) class,
      ),
    )

==_self : (n : ℕ) → (n == n) ≡ true
==_self n = (==_iff n n).1 refl

show_settles :
    (os : Os) (o : Option LinuxBacklight) (p : ℕ) (w : World) (r : Runner)
    → brightness_percent (show os o p w r).0 ≡ p
    → show os o p (show os o p w r).0 (show os o p w r).1 ≡ show os o p w r
unfolding show same_as
show_settles os none p w r shown = refl
show_settles os (some l) p w r shown =
    elim (Bool-cases
      (not (same_as r.last_applied_brightness p) || not (brightness_percent w == p))) [
        | inl due ↦
            let shown' : brightness_percent (set_brightness_percent os p w) ≡ p = rw due at shown in
            rw (due, shown', ==_self p) refl
        | inr done ↦ rw done (rw done refl)
      ]

brighten_settles :
    (on : Bool) (os : Os) (o : Option LinuxBacklight) (p : ℕ) (w : World) (r : Runner)
    → let (w1, r1, q) = brighten on os o p w r in
      brightness_percent w1 ≡ p → brighten on os o p w1 r1 ≡ (w1, r1, q)
unfolding brighten
brighten_settles false os o p w r shown = refl
brighten_settles true os o p w r shown =
    ap (λ s. (s.0, s.1, some p)) (show_settles os o p w r shown)

-- Once the backlight shows the target after a step, the next step with the same configuration and
-- class writes nothing: the machine and the runner stay as they are.
pub apply_brightness_step_settles :
    (os : Os) (b : LinuxBackend) (config : Config) (class : Text) (w w1 : World) (r r1 : Runner)
    (p : Option ℕ)
    → apply_brightness_step os b config class w r ≡ (w1, r1, p)
    → brightness_percent w1 ≡ target_brightness config class
    → apply_brightness_step os b config class w1 r1 ≡ (w1, r1, p)
unfolding apply_brightness_step
apply_brightness_step_settles os b config class w w1 r r1 p stepped =
    let goal = target_brightness config class in
    let again = brighten config.auto_brightness os b.backlight goal in
    subst (λ s. brightness_percent s.0 ≡ goal → again s.0 s.1 ≡ s) stepped
      (brighten_settles config.auto_brightness os b.backlight goal w r)
