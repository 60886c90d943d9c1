-- ===== src/Tui/Changes/Basic.antt =====
-- The operations of the application that change no hardware, and the profiles.
use wattwarden.Base.{ℕ, Text, some, some-eq, ◌≡◌, refl, inl}
use wattwarden.Core.Config.{Config, PowerProfile, extreme}
use wattwarden.Sysfs.{Os}
use wattwarden.Sysfs.Stable.{Keeps}
use wattwarden.Rapl.Writes.{IsPowerLimit, IsConstraint}
use wattwarden.Backend.Profiles.{apply_profile-Moves}
use wattwarden.Tui.App.{
  Host, App, Message, set_toast, refresh_daemon_state, stop_daemon, save_config,
  stop_background_daemon, start_daemon, use_profile,
}
use wattwarden.Tui.Changes.{unchanged, moved, Adjusted, Adjusted-if, still}

module _ {F H : Type 0} (host : Host H) (os : Os) (read : App F H → Type 0)
    (stored : ℕ → Type 0) where
  pub set_toast-Adjusted :
      (message : Message) (app : App F H)
      → Adjusted host os read stored app (set_toast host message app)
  unfolding set_toast
  set_toast-Adjusted message app = record { kept = refl; changed = unchanged; chosen = λ e. inl e }

  pub refresh_daemon_state-Adjusted :
      (app : App F H) → Adjusted host os read stored app (refresh_daemon_state host app)
  unfolding refresh_daemon_state
  refresh_daemon_state-Adjusted app =
      Adjusted-if host os read stored app _ _ _ (still host os read stored app)
        (record { kept = refl; changed = unchanged; chosen = λ e. inl e })

  pub stop_daemon-Adjusted :
      (app : App F H) → Adjusted host os read stored app (stop_daemon host app)
  unfolding stop_daemon
  stop_daemon-Adjusted app = record { kept = refl; changed = unchanged; chosen = λ e. inl e }

  pub save_config-Adjusted :
      (config : Config) (app : App F H)
      → (config.profile ≡ some extreme → app.config.profile ≡ some extreme)
      → Adjusted host os read stored app (save_config host config app)
  unfolding save_config
  save_config-Adjusted config app h = record {
    kept = refl;
    changed = unchanged;
    chosen = λ e. inl (h e);
  }

  pub stop_background_daemon-Adjusted :
      (app : App F H) → Adjusted host os read stored app (stop_background_daemon host app)
  unfolding stop_background_daemon save_config stop_daemon
  stop_background_daemon-Adjusted app = record {
    kept = refl;
    changed = unchanged;
    chosen = λ e. inl e;
  }

  pub start_daemon-Adjusted :
      (app : App F H) → Adjusted host os read stored app (start_daemon host app)
  unfolding start_daemon save_config
  start_daemon-Adjusted app = record { kept = refl; changed = unchanged; chosen = λ e. inl e }

  -- A profile that is not Extreme Mode.
  pub use_profile-Adjusted :
      Keeps os IsPowerLimit IsConstraint
      → (profile : PowerProfile) (message : Text) (app : App F H) → ¬ (profile ≡ extreme)
      → Adjusted host os read stored app (use_profile host os profile message app)
  unfolding use_profile stop_background_daemon save_config stop_daemon set_toast
  use_profile-Adjusted keeps profile message app other = record {
    kept = refl;
    changed = moved (apply_profile-Moves os keeps app.backend profile app.world);
    chosen = λ e. absurd (other (some-eq profile extreme e));
  }
