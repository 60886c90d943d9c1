-- ===== src/Tui/App.antt =====
-- crates/wattwarden-tui/src/app.rs: the state of the dashboard, the daemon's control and the
-- profiles. What lies outside the hardware's tree, the configuration file, the calibration's file,
-- the processes and the clock, is reached through `Host`. The cache of the rendered rows is left out.
use wattwarden.Base.{
  ℕ, zero, suc, ◌+◌, ◌-◌, Text, text, Bool, true, false, Option, none, some, List, [], ◌∷◌, ◌++◌,
  ltb, min, max, if◌then◌else◌, length, skip_one, to_string, trim_end_matches, ◌==◌, ◌/◌, ◌%◌,
}
use wattwarden.Core.Error.{Result, ok, err}
use wattwarden.Core.Float.{Float}
use wattwarden.Core.Config.{Config, PowerProfile, normal, extreme}
use wattwarden.Core.Calibrate.{StateFile, Outcome}
use wattwarden.Sysfs.{World, Os}
use wattwarden.Backend.{LinuxBackend, apply_profile}
use wattwarden.Battery.Power.{consumption_watts}
use wattwarden.Tui.Menu.{ActionItem, build_menu, initial_selected}

pub record Host (H : Type 0) : Type 0 where
  -- `Instant::now()`, in milliseconds
  pub now : H → ℕ
  -- `Config::save(None)` and `Config::load_or_default(None)`
  pub save : Config → H → H × Bool
  pub load : H → Config
  -- `PidManager::is_running`, and the signal to the process whose number the file holds
  pub daemon_is_active : H → Bool
  pub terminate : H → H
  -- `systemctl` with the given words, and whether the unit's file exists
  pub systemctl : List Text → H → H
  pub has_unit : H → Bool
  -- A hundred milliseconds
  pub sleep : H → H
  pub spawn_detached_daemon : H → H × Bool
  -- `wattwarden charge-limit <arg>` run with privileges: whether it ran and succeeded
  pub run_elevated_charge_limit : Text → World → H → World × H × Bool
  pub calibration : StateFile H

pub data Message : Type 0 where
  words : Text → Message
  -- The first line of what a calibration command says
  calibrated : Outcome → Message

pub record App (F H : Type 0) : Type 0 where
  pub world : World
  pub host : H
  pub backend : LinuxBackend
  pub config : Config
  pub history : List F
  pub selected : ℕ
  pub items : List ActionItem
  pub confirm_extreme : Bool
  pub toast : Option (Message × ℕ)
  pub should_quit : Bool
  pub last_update : ℕ
  pub refresh_delay : ℕ
  pub daemon_active : Bool
  pub daemon_checked : ℕ

-- In milliseconds.
abbrev pub default_refresh_delay : ℕ
default_refresh_delay = 2000

abbrev pub min_refresh_delay : ℕ
min_refresh_delay = 500

abbrev pub max_refresh_delay : ℕ
max_refresh_delay = 10000

abbrev pub refresh_step : ℕ
refresh_step = 500

abbrev pub daemon_state_ttl : ℕ
daemon_state_ttl = 1000

abbrev pub history_capacity : ℕ
history_capacity = 400

toast_at : ℕ → Option (Message × ℕ) → Option Message
toast_at t none = none
toast_at t (some (message, since)) = if ltb (t - since) 3000 then some message else none

-- Three decimals of a second, without the zeros and the point at their end.
decimals : ℕ → Text
decimals ms =
    to_string (ms / 1000)
    ++ (b'.' ∷ (b'0' + ms / 100 % 10) ∷ (b'0' + ms / 10 % 10) ∷ (b'0' + ms % 10) ∷ [])

-- `500ms`, `1s`, `1.5s`
unfoldable pub format_duration : ℕ → Text
unfolding decimals
format_duration ms =
    if ltb ms 1000
    then to_string ms ++ text "ms"
    else trim_end_matches (λ c. c == b'.') (trim_end_matches (λ c. c == b'0') (decimals ms))
      ++ text "s"

module _ {H : Type 0} (host : Host H) where
  open host use {daemon_is_active, systemctl, has_unit, sleep, spawn_detached_daemon}

  -- Whether the unit has taken the instance lock within the given number of rounds.
  await_daemon : ℕ → H → H × Bool
  await_daemon zero h = (h, false)
  await_daemon (suc rounds) h =
      let later = await_daemon rounds (sleep h) in if daemon_is_active h then (h, true) else later

  restart_unit : H → H × Bool
  unfolding await_daemon
  restart_unit h =
      if has_unit h
      then await_daemon 10 (
          systemctl (text "restart" ∷ text "wattwarden.service" ∷ [])
            (systemctl (text "reset-failed" ∷ text "wattwarden.service" ∷ []) h))
      else (h, false)

  -- A detached process, unless a daemon is there.
  spawn_unless_active : H → H × Bool
  spawn_unless_active h = if daemon_is_active h then (h, true) else spawn_detached_daemon h

  after_restart : H × Bool → H × Bool
  unfolding spawn_unless_active
  after_restart (h, true) = (h, true)
  after_restart (h, false) = spawn_unless_active h

module _ {F : Type 0} where
  -- A new sample behind the others; the oldest one goes when there are too many.
  unfoldable pub record_sample : F → List F → List F
  record_sample x history =
      let longer = history ++ (x ∷ []) in
      if ltb history_capacity (length longer) then skip_one longer else longer

  unfoldable pub sample : Float F → Result F → List F → List F
  unfolding record_sample
  sample float (err e) history = history
  sample float (ok watts) history =
      if float.lt (float.of_nat 0) watts then record_sample watts history else history

module _ {F H : Type 0} (host : Host H) where
  open host use {now, save, daemon_is_active, terminate, systemctl}

  -- `new`; the clock is past the lifetime of the daemon's state.
  unfoldable pub new : Text → World → H → LinuxBackend → Config → App F H
  unfolding build_menu initial_selected
  new os_name w h backend config = record {
    world = w;
    host = h;
    backend = backend;
    config = config;
    history = [];
    selected = initial_selected (build_menu os_name);
    items = build_menu os_name;
    confirm_extreme = false;
    toast = none;
    should_quit = false;
    last_update = now h;
    refresh_delay = default_refresh_delay;
    daemon_active = false;
    daemon_checked = now h - daemon_state_ttl;
  }

  unfoldable pub set_toast : Message → App F H → App F H
  set_toast message app = record app { toast = some (message, now app.host) }

  unfoldable pub toast_message : App F H → Option Message
  unfolding toast_at
  toast_message app = toast_at (now app.host) app.toast

  unfoldable pub refresh_daemon_state : App F H → App F H
  refresh_daemon_state app =
      if ltb (now app.host - app.daemon_checked) daemon_state_ttl
      then app
      else record app { daemon_active = daemon_is_active app.host; daemon_checked = now app.host }

  -- The configuration stays as it is.
  unfoldable pub stop_daemon : App F H → App F H
  stop_daemon app =
      let h = terminate app.host in
      record app { host = h; daemon_active = false; daemon_checked = now h }

  -- `let _ = self.config.save(None)`
  unfoldable pub save_config : Config → App F H → App F H
  save_config config app = record app { config = config; host = (save config app.host).0 }

  unfoldable pub stop_background_daemon : App F H → App F H
  unfolding save_config stop_daemon
  stop_background_daemon app =
      let stopped =
        stop_daemon (save_config (record app.config { auto_extreme_enabled = false }) app) in
      let h = systemctl (text "stop" ∷ text "wattwarden.service" ∷ []) stopped.host in
      record stopped { host = h; daemon_checked = now h }

  unfoldable pub start_daemon : App F H → App F H
  unfolding save_config restart_unit after_restart
  start_daemon app =
      let saved = save_config (record app.config { auto_extreme_enabled = true }) app in
      let r = after_restart host (restart_unit host saved.host) in
      record saved { host = r.0; daemon_active = r.1; daemon_checked = now r.0 }

  -- A sample of the power, when the interval has passed.
  unfoldable pub take_sample : Float F → App F H → App F H
  unfolding sample
  take_sample float app =
      if ltb (now app.host - app.last_update) app.refresh_delay then app else record app {
        last_update = now app.host;
        history = sample float (consumption_watts float app.backend.battery app.world) app.history;
      }

  unfoldable pub tick : Float F → App F H → App F H
  unfolding refresh_daemon_state take_sample
  tick float app = take_sample float (refresh_daemon_state app)

  unfoldable pub set_delay : ℕ → App F H → App F H
  unfolding set_toast
  set_delay delay app =
      set_toast (words (text "Update Speed: " ++ format_duration delay))
        (record app { refresh_delay = delay })

  unfoldable pub speed_up : App F H → App F H
  unfolding set_delay
  speed_up app =
      if ltb min_refresh_delay app.refresh_delay
      then set_delay (max (app.refresh_delay - refresh_step) min_refresh_delay) app
      else app

  unfoldable pub speed_down : App F H → App F H
  unfolding set_delay
  speed_down app =
      if ltb app.refresh_delay max_refresh_delay
      then set_delay (min (app.refresh_delay + refresh_step) max_refresh_delay) app
      else app

  module _ (os : Os) where
    -- The daemon is stopped before the profile is applied.
    unfoldable pub use_profile : PowerProfile → Text → App F H → App F H
    unfolding stop_background_daemon save_config set_toast
    use_profile profile message app =
        let stopped = stop_background_daemon app in
        let applied = record stopped {
          world = apply_profile os stopped.backend profile stopped.world;
        } in
        set_toast (words message)
          (save_config (record applied.config { profile = some profile }) applied)

    unfoldable pub confirm_extreme_mode : App F H → App F H
    unfolding use_profile
    confirm_extreme_mode app =
        use_profile extreme (text "EXTREME MODE ACTIVATED") (record app { confirm_extreme = false })

    unfoldable pub cancel_extreme_mode : App F H → App F H
    cancel_extreme_mode app = record app { confirm_extreme = false }

    unfoldable pub restore : Text → App F H → App F H
    unfolding use_profile
    restore message app = use_profile normal message (record app { confirm_extreme = false })
