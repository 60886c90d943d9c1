-- ===== src/Tui/Keys.antt =====
-- crates/wattwarden-tui/src/app.rs and run.rs: Enter, and what the loop does with a key. Drawing and
-- the terminal are left out.
pub mod Changed
pub mod Valid
pub mod Confirmed
use wattwarden.Base.{
  ℕ, Text, text, Bool, true, false, ◌||◌, ◌==◌, Option, none, some, List, [], ◌∷◌, ◌++◌,
  if◌then◌else◌, is_some, map, leb, ◌&&◌, ◌-◌,
}
use wattwarden.Sysfs.{World, Os}
use wattwarden.Core.Config.{Config, performance, display_level, next}
use wattwarden.Core.Calibrate.{Outcome, status, start, finish}
use wattwarden.Battery.{linux_battery}
use wattwarden.Threshold.Set.{linux_threshold}
use wattwarden.Tweaks.{process_purge}
use wattwarden.Tui.Menu
use wattwarden.Tui.Menu.{ActionItem, item_at, step_selection}
use wattwarden.Tui.App.{
  Host, App, words, calibrated, set_toast, refresh_daemon_state, stop_daemon,
  stop_background_daemon, start_daemon, save_config, speed_up, speed_down, use_profile,
  confirm_extreme_mode, cancel_extreme_mode, restore,
}
use wattwarden.Tui.Adjust.{set_charge_limit, toggle_boolean}
use wattwarden.Tui.Arrows.{handle_left, handle_right}

-- `to_uppercase` of an ASCII text
abbrev upper_letter : ℕ → ℕ
upper_letter c = if leb b'a' c && leb c b'z' then c - 32 else c

beside : {H : Type 0} → World → H × Outcome → World × H × Outcome
beside w (h, outcome) = (w, h, outcome)

module _ {F H : Type 0} (host : Host H) (os : Os) where
  open host use {calibration}

  -- The toast of a calibration command, with the state that it leaves.
  said : World × H × Outcome → App F H → App F H
  unfolding set_toast
  said (w, h, outcome) app =
      set_toast host (calibrated outcome) (record app { world = w; host = h })

  -- A calibration that is under way is looked at; otherwise one begins.
  calibrate : App F H → App F H
  unfolding said beside stop_daemon
  calibrate app =
      let stopped = stop_daemon host app in
      said
        (if is_some (calibration.load stopped.host)
          then beside stopped.world (
              status (linux_battery stopped.backend.battery) calibration stopped.world stopped.host)
          else start (linux_threshold os stopped.backend.threshold) calibration stopped.world
              stopped.host)
        stopped

  restore_threshold : App F H → App F H
  unfolding said stop_daemon
  restore_threshold app =
      let stopped = stop_daemon host app in
      said
        (finish (linux_threshold os stopped.backend.threshold) calibration stopped.world
          stopped.host)
        stopped

  switch_daemon : App F H → App F H
  unfolding stop_background_daemon start_daemon set_toast
  switch_daemon app =
      if app.daemon_active
      then set_toast host (words (text "AUTO EXTREME DAEMON STOPPED"))
          (stop_background_daemon host app)
      else set_toast host (words (text "AUTO EXTREME RUNNING (BACKGROUND)")) (start_daemon host app)

  next_level : App F H → App F H
  unfolding save_config set_toast
  next_level app =
      let level = next app.config.auto_extreme_level in
      set_toast host (words (text "AUTO EXTREME LEVEL: " ++ map upper_letter (display_level level)))
        (save_config host (record app.config { auto_extreme_level = level }) app)

  unfoldable pub handle_enter : ActionItem → App F H → App F H
  unfolding calibrate restore_threshold switch_daemon next_level refresh_daemon_state use_profile
      restore toggle_boolean set_charge_limit set_toast
  handle_enter Menu.profile_performance app =
      use_profile host os performance (text "PERFORMANCE MODE ACTIVATED") app
  handle_enter Menu.profile_extreme app = record app { confirm_extreme = true }
  handle_enter Menu.profile_auto_extreme app = switch_daemon (refresh_daemon_state host app)
  handle_enter Menu.auto_extreme_level app = next_level app
  handle_enter Menu.auto_brightness app = toggle_boolean host os Menu.auto_brightness app
  handle_enter Menu.profile_restore app = restore host os (text "RESTORE MODE ACTIVATED") app
  handle_enter Menu.charge_limit app =
      set_charge_limit host os (if is_some app.config.battery_charge_limit then none else some 80)
        app
  handle_enter Menu.calibrate app = calibrate app
  handle_enter Menu.calib_restore app = restore_threshold app
  handle_enter Menu.process_purge app =
      set_toast host (words (text "PROCESSES PURGED"))
        (record app { world = process_purge os app.world })
  handle_enter item app = app

-- A key that was pressed.
pub data Key : Type 0 where
  char : ℕ → Key
  control_c esc up down left right enter other : Key

-- What the loop does about a key.
pub data Action : Type 0 where
  quit restore_normal faster slower previous following lower raise execute nothing : Action

abbrev one_of : ℕ → Text → Bool
one_of c [] = false
one_of c (d ∷ letters) = (c == d) || one_of c letters

-- Letters stand for the arrows too: WASD and hjkl.
action_of_char : ℕ → Action
action_of_char c =
    if one_of c (text "qQ")
    then quit
    else if one_of c (text "rR")
    then restore_normal
    else if one_of c (text "+")
    then faster
    else if one_of c (text "-")
    then slower
    else if one_of c (text "kwW")
    then previous
    else if one_of c (text "jsS")
    then following
    else if one_of c (text "haA")
    then lower
    else if one_of c (text "ldD")
    then raise
    else nothing

unfoldable pub action_of : Key → Action
unfolding action_of_char
action_of (char c) = action_of_char c
action_of control_c = quit
action_of esc = quit
action_of up = previous
action_of down = following
action_of left = lower
action_of right = raise
action_of enter = execute
action_of other = nothing

-- What the question about Extreme Mode takes for an answer.
pub data Answer : Type 0 where
  agreed refused unheard : Answer

unfoldable pub answer_of : Key → Answer
answer_of (char c) =
    if one_of c (text "yY") then agreed else if one_of c (text "nN") then refused else unheard
answer_of esc = refused
answer_of key = unheard

module _ {F H : Type 0} (host : Host H) (os : Os) where
  -- `next_menu` and `prev_menu`
  unfoldable pub move_selection : Bool → App F H → App F H
  move_selection forward app = record app {
    selected = step_selection app.items app.selected forward;
  }

  -- A row's action; without a row the index is out of range, and the program panics.
  unfoldable pub on_row :
      (ActionItem → App F H → App F H) → Option ActionItem → App F H → Option (App F H)
  on_row handle none app = none
  on_row handle (some item) app = some (handle item app)

  unfoldable pub act : Action → App F H → Option (App F H)
  unfolding on_row move_selection restore speed_up speed_down handle_left handle_right handle_enter
  act quit app = some (record app { should_quit = true })
  act restore_normal app = some (restore host os (text "System Restored") app)
  act faster app = some (speed_up host app)
  act slower app = some (speed_down host app)
  act previous app = some (move_selection false app)
  act following app = some (move_selection true app)
  act lower app = on_row (handle_left host os) (item_at app.items app.selected) app
  act raise app = on_row (handle_right host os) (item_at app.items app.selected) app
  act execute app = on_row (handle_enter host os) (item_at app.items app.selected) app
  act nothing app = some app

  unfoldable pub answer : Answer → App F H → App F H
  unfolding confirm_extreme_mode cancel_extreme_mode
  answer agreed app = confirm_extreme_mode host os app
  answer refused app = cancel_extreme_mode host os app
  answer unheard app = app

  -- The question takes the keyboard while it is there.
  respond : Bool → Key → App F H → Option (App F H)
  unfolding act answer
  respond true key app = some (answer (answer_of key) app)
  respond false key app = act (action_of key) app

  -- One key.
  unfoldable pub press : Key → App F H → Option (App F H)
  unfolding respond
  press key app = respond app.confirm_extreme key app
