-- ===== src/Tests/Dashboard.antt =====
-- The dashboard on the laptop, with a host that keeps a configuration and a clock.
use wattwarden.Base.{ℕ, ◌+◌, text, Bool, true, false, Option, none, some, [], ◌∷◌, ◌≡◌, refl}
use wattwarden.Core.Config.{Config, extreme}
use wattwarden.Core.Calibrate.{CalibrationState, StateFile}
use wattwarden.Rapl.Writes.{IsPowerLimit, IsConstraint}
use wattwarden.Tui.Menu.{header, turbo, step_selection, build_menu}
use wattwarden.Tui.Menu.Steps.{Lands, step_selection-Lands}
use wattwarden.Tui.App.{Host, App, new, confirm_extreme_mode}
use wattwarden.Tui.Draw.{View}
use wattwarden.Tui.Changes.{Changes}
use wattwarden.Tui.Keys.{Key, char, answer_of, press}
use wattwarden.Tui.Keys.Valid.{IsValid, opened, Reached-press}
use wattwarden.Tui.Keys.Changed.{IsStored}
use wattwarden.Tui.Keys.Confirmed.{IsConfirmed, press-Changes, press-IsConfirmed}
use wattwarden.Tests.Laptop.{laptop, backend, deaf, deaf_keeps, milli, enabled}

step_selection-Lands_example :
    Lands (build_menu (text "Linux")) 6 true (step_selection (build_menu (text "Linux")) 6 true)
step_selection-Lands_example = step_selection-Lands (build_menu (text "Linux")) 6 true

-- Down from `Restore Mode` is `Battery Health`, over two headers.
steps_over_headers : step_selection (build_menu (text "Linux")) 6 true ≡ 9
unfolding step_selection build_menu
steps_over_headers = refl

record Desk : Type 0 where
  stored : Config
  time : ℕ
  running : Bool
  begun : Option CalibrationState

abbrev desk : Desk
desk = record { stored = enabled; time = 5000; running = true; begun = none }

abbrev file : StateFile Desk
file = record {
  load = λ d. d.begun;
  save = λ c d. (record d { begun = some c }, true);
  clear = λ d. record d { begun = none };
}

abbrev host : Host Desk
host = record {
  now = λ d. d.time;
  save = λ c d. (record d { stored = c }, true);
  load = λ d. d.stored;
  daemon_is_active = λ d. d.running;
  terminate = λ d. record d { running = false };
  systemctl = λ args d. d;
  has_unit = λ d. false;
  sleep = λ d. record d { time = d.time + 100 };
  spawn_detached_daemon = λ d. (record d { running = true }, true);
  run_elevated_charge_limit = λ arg w d. (w, d, false);
  calibration = file;
}

abbrev app : App ℕ Desk
app = new host (text "Linux") laptop desk backend enabled

Reached-press_example :
    IsValid app × ((key : Key) → (app' : App ℕ Desk) × (press host deaf key app ≡ some app'))
Reached-press_example =
    Reached-press milli host deaf (deaf_keeps IsPowerLimit IsConstraint) app
      (opened (text "Linux") laptop desk backend enabled)

-- The row of Extreme Mode, with the question on the screen.
abbrev asked : App ℕ Desk
asked = record app { selected = 2; confirm_extreme = true }

agreed_to : press host deaf (char b'y') asked ≡ some (confirm_extreme_mode host deaf asked)
unfolding press answer_of
agreed_to = refl

press-Changes_example :
    Changes host deaf
      (IsStored host deaf asked)
      asked.backend
      asked.world
      (confirm_extreme_mode host deaf asked).world
press-Changes_example =
    press-Changes host deaf (deaf_keeps IsPowerLimit IsConstraint) (char b'y') asked
      (confirm_extreme_mode host deaf asked) agreed_to

extreme_now : (confirm_extreme_mode host deaf asked).config.profile ≡ some extreme
unfolding confirm_extreme_mode
extreme_now = refl

press-IsConfirmed_example :
    IsConfirmed host deaf (char b'y') asked (confirm_extreme_mode host deaf asked)
press-IsConfirmed_example =
    press-IsConfirmed host deaf (deaf_keeps IsPowerLimit IsConstraint) (char b'y') asked
      (confirm_extreme_mode host deaf asked) agreed_to extreme_now

abbrev clean : View
clean = record {
  cache = record { rows = []; rows_dirty = false; rows_checked = 0 };
  scroll_offset = 0;
}

abbrev on_turbo : App ℕ Desk
on_turbo = record app { selected = 1; items = header (text "CPU") ∷ turbo ∷ [] }
