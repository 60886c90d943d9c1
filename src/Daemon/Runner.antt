-- ===== src/Daemon/Runner.antt =====
-- `DaemonRunner`: the brightness step, the charge limit, the settings at boot and the loop. The
-- configuration file is read afresh for every tick, so a tick carries the configuration that it
-- finds. The battery health samples and the PID file have modules of their own.
pub mod OptIn
pub mod Charge
pub mod Brightness
use wattwarden.Base.{
  ℕ, ◌+◌, ◌-◌, Text, text, text_eq, is_empty, Bool, true, false, ◌&&◌, ◌||◌, not, Option, none,
  some, List, [], ◌∷◌, any, leb, ltb, clamp, ◌==◌, if◌then◌else◌, trim, to_lowercase, contains,
}
use wattwarden.Sysfs.{World, Os}
use wattwarden.Core.Error.{Result, ok, err, Done}
use wattwarden.Core.Config.{Config, AutoExtremeLevel, low, medium, high}
use wattwarden.Core.Traits.{ChargeThreshold}
use wattwarden.Threshold.Set.{linux_threshold}
use wattwarden.Backlight.{LinuxBacklight, brightness_percent, set_brightness_percent}
use wattwarden.Backend.{LinuxBackend, if_some, apply_profile}
use wattwarden.Core.Float.{Float}
use wattwarden.Daemon.Ladder.{apply_logic_step}

-- The atomics of the runner. A brightness of -1 before the first one is `none`.
pub record Runner : Type 0 where
  pub last_applied_brightness : Option ℕ
  pub last_charge_warn : ℕ

abbrev pub new : Runner
new = record { last_applied_brightness = none; last_charge_warn = 0 }

-- Seconds between two warnings.
abbrev pub temp_warn_interval_secs : ℕ
temp_warn_interval_secs = 600

non_empty_or : Text → Text → Text
non_empty_or s other = if is_empty s then other else s

class_or : Option Text → Text → Text
unfolding non_empty_or
class_or none tool = tool
class_or (some c) tool = non_empty_or (to_lowercase (trim c)) tool

-- The compositor's answer, or else what `xdotool` prints.
unfoldable pub active_window_class : Option Text → Text → Text
unfolding class_or
active_window_class compositor tool = class_or compositor (to_lowercase (trim tool))

-- The rule that a window class matches.
unfoldable pub base_brightness : Text → ℕ
base_brightness class =
    if is_empty class
      || any (contains class) (
          text "kitty"
          ∷ text "foot"
          ∷ text "alacritty"
          ∷ text "wezterm"
          ∷ text "ghostty"
          ∷ text "xterm"
          ∷ [])
    then 12
    else if any (contains class) (
        text "firefox"
        ∷ text "chrome"
        ∷ text "chromium"
        ∷ text "brave"
        ∷ text "zen"
        ∷ text "code"
        ∷ text "cursor"
        ∷ text "idea"
        ∷ text "studio"
        ∷ [])
    then 30
    else 20

unfoldable pub level_delta : AutoExtremeLevel → ℕ
level_delta high = 0
level_delta medium = 10
level_delta low = 20

-- The class is that of the override, in lower case, or of the active window.
unfoldable pub target_brightness : Config → Text → ℕ
target_brightness config class =
    clamp (base_brightness class + level_delta config.auto_extreme_level) 1 100

same_as : Option ℕ → ℕ → Bool
same_as none p = false
same_as (some q) p = q == p

show : Os → Option LinuxBacklight → ℕ → World → Runner → World × Runner
unfolding same_as
show os none p w r = (w, r)
show os (some l) p w r =
    if not (same_as r.last_applied_brightness p) || not (brightness_percent w == p)
    then (set_brightness_percent os p w, record r { last_applied_brightness = some p })
    else (w, r)

-- The first argument is `auto_brightness`.
brighten : Bool → Os → Option LinuxBacklight → ℕ → World → Runner → World × Runner × Option ℕ
unfolding show
brighten false os o p w r = (w, r, none)
brighten true os o p w r = let (w', r') = show os o p w r in (w', r', some p)

unfoldable pub apply_brightness_step :
    Os → LinuxBackend → Config → Text → World → Runner → World × Runner × Option ℕ
unfolding brighten
apply_brightness_step os b config class w r =
    brighten config.auto_brightness os b.backlight (target_brightness config class) w r

-- A clock that went back since the last warning gives a negative difference, which is below the
-- interval, as the difference of 0 is here.
warn_due : ℕ → ℕ → Bool
warn_due last now = (last == 0) || leb temp_warn_interval_secs (now - last)

module _ {S : Type 0} (threshold : ChargeThreshold S) where
  note_result : ℕ → S × Done → Runner → S × Runner
  unfolding warn_due
  note_result now (s, ok u) r = (s, r)
  note_result now (s, err e) r =
      (s, if warn_due r.last_charge_warn now then record r { last_charge_warn = now } else r)

  reports : Result ℕ → ℕ → Bool
  reports (ok cur) limit = cur == limit
  reports (err e) limit = false

  enforce : Option ℕ → ℕ → S → Runner → S × Runner
  unfolding note_result reports
  enforce none now s r = (s, r)
  enforce (some limit) now s r =
      if not (threshold.supports_threshold s)
      then (s, r)
      else if reports (threshold.charge_threshold s) limit
      then (s, r)
      else note_result now (threshold.set_charge_threshold limit s) r

  -- `enforce_charge_limit` at the time `now`, in seconds
  unfoldable pub enforce_charge_limit : Config → ℕ → S → Runner → S × Runner
  unfolding enforce
  enforce_charge_limit config now s r = enforce config.battery_charge_limit now s r

-- A profile that is not set is left alone.
unfoldable pub apply_boot_settings :
    Os → LinuxBackend → Config → ℕ → World → Runner → World × Runner
apply_boot_settings os b config now w r =
    enforce_charge_limit (linux_threshold os b.threshold) config now
      (if_some config.profile (apply_profile os b) w) r

-- What wakes the loop: one of the tickers. A brightness tick carries the class of the window.
pub data Tick : Type 0 where
  logic : Config → ℕ → Tick
  brightness_tick : Config → Text → Tick

module _ {F : Type 0} (fl : Float F) (os : Os) (b : LinuxBackend) where
  unfoldable pub apply_logic : Config → ℕ → World → Runner → World × Runner
  apply_logic config now w r =
      enforce_charge_limit (linux_threshold os b.threshold) config now
        (apply_logic_step fl os b config w).0 r

  unfoldable pub on_tick : Tick → World → Runner → World × Runner
  on_tick (logic config now) w r = apply_logic config now w r
  on_tick (brightness_tick config class) w r =
      let (w', r', p) = apply_brightness_step os b config class w r in (w', r')

  ticks : List Tick → World → Runner → World × Runner
  ticks [] w r = (w, r)
  ticks (t ∷ ts) w r = let (w', r') = on_tick t w r in ticks ts w' r'

  -- `run` up to the shutdown: the settings at boot, one pass of each kind, and the ticks. The health
  -- pass after a logic pass, which writes a log and no hardware, is `passes` of Daemon.Health.
  unfoldable pub run_loop : Config → ℕ → Tick → Tick → List Tick → World → Runner → World × Runner
  unfolding ticks
  run_loop config now first_logic first_brightness ts w r =
      let (w1, r1) = apply_boot_settings os b config now w r in
      ticks (first_logic ∷ first_brightness ∷ ts) w1 r1
