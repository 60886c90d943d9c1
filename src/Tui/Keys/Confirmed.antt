-- ===== src/Tui/Keys/Confirmed.antt =====
-- What a key does to the hardware, and when it chooses Extreme Mode.
use wattwarden.Base.{
  text, Bool, true, false, Option, none, some, ◌≡◌, refl, sym, ap, ◌∙◌, some-eq, ℕ, ◌⊎◌, inl, inr,
  subst, if◌then◌else◌, ltb,
}
use wattwarden.Core.Config.{extreme}
use wattwarden.Sysfs.{Os}
use wattwarden.Sysfs.Stable.{Keeps}
use wattwarden.Rapl.Writes.{IsPowerLimit, IsConstraint}
use wattwarden.Backend.Profiles.{apply_profile-Moves}
use wattwarden.Tui.Menu.{ActionItem, charge_limit, item_at}
use wattwarden.Tui.App.{
  Host, App, min_refresh_delay, max_refresh_delay, speed_up, speed_down, set_delay, set_toast,
  use_profile, confirm_extreme_mode, cancel_extreme_mode, stop_background_daemon, save_config,
  stop_daemon,
}
use wattwarden.Tui.Arrows.Changed.{handle_left-Adjusted, handle_right-Adjusted}
use wattwarden.Tui.Changes.{Changes, unchanged, moved, IsReloaded, Reread, Never, Adjusted}
use wattwarden.Tui.Keys.{
  Key, Action, quit, restore_normal, faster, slower, previous, following, lower, raise, execute,
  nothing, Answer, agreed, refused, unheard, action_of, answer_of, on_row, act, answer, respond,
  press, move_selection,
}
use wattwarden.Tui.Keys.Changed.{IsStored, handle_enter-Adjusted, restore-Adjusted}

module _ {F H : Type 0} (host : Host H) (os : Os) where
  -- The configuration names Extreme Mode only where it did before, or where it is the one that the
  -- row of the charge limit has read again, or the user has just agreed to it.
  abbrev pub IsConfirmed : Key → App F H → App F H → Type 0
  IsConfirmed key app app' =
      (app.config.profile ≡ some extreme)
      ⊎ ((item_at app.items app.selected ≡ some charge_limit) × IsReloaded host app')
      ⊎ ((app.confirm_extreme ≡ true) × (answer_of key ≡ agreed))

  pub record Pressed (key : Key) (app app' : App F H) : Type 0 where
    pub changed : Changes host os (IsStored host os app) app.backend app.world app'.world
    pub confirmed : app'.config.profile ≡ some extreme → IsConfirmed key app app'

  quietly :
      (key : Key) (app app' : App F H)
      → app'.world ≡ app.world
      → app'.config ≡ app.config
      → Pressed key app app'
  quietly key app app' w c = record {
    changed =
        subst (λ v. Changes host os (IsStored host os app) app.backend app.world v) (sym w)
          unchanged;
    confirmed = λ e. inl (subst (λ k. k.profile ≡ some extreme) c e);
  }

  adjusted :
      (key : Key) (item : ActionItem) (app app' : App F H)
      → item_at app.items app.selected ≡ some item
      → Adjusted host os (Reread host item) (IsStored host os app) app app'
      → Pressed key app app'
  adjusted key item app app' on a = record {
    changed = a.changed;
    confirmed = λ e. elim (a.chosen e) [
      | inl before ↦ inl before
      | inr (row, loaded) ↦ inr (inl (on ∙ ap some row, loaded))
    ];
  }

  silent :
      (key : Key) (app app' : App F H)
      → Adjusted host os Never (IsStored host os app) app app'
      → Pressed key app app'
  silent key app app' a = record {
    changed = a.changed;
    confirmed = λ e. elim (a.chosen e) [ inl before ↦ inl before | inr never ↦ absurd never ];
  }

  on_row-Pressed :
      (key : Key) (handle : ActionItem → App F H → App F H) (o : Option ActionItem)
      (app app' : App F H)
      → item_at app.items app.selected ≡ o
      → ((item : ActionItem)
          → Adjusted host os (Reread host item) (IsStored host os app) app (handle item app))
      → on_row host os handle o app ≡ some app'
      → Pressed key app app'
  unfolding on_row
  on_row-Pressed key handle none app app' on h e = absurd (cc)
  on_row-Pressed key handle (some item) app app' on h e =
      subst (Pressed key app) (some-eq _ _ e) (adjusted key item app _ on (h item))

  speed-Pressed :
      (key : Key) (test : Bool) (delay : ℕ) (app : App F H)
      → Pressed key app (if test then set_delay host delay app else app)
  unfolding set_delay set_toast
  speed-Pressed key true delay app = quietly key app _ refl refl
  speed-Pressed key false delay app = quietly key app _ refl refl

  module _ (keeps : Keeps os IsPowerLimit IsConstraint) where
    act-Pressed :
        (key : Key) (action : Action) (app app' : App F H)
        → act host os action app ≡ some app'
        → Pressed key app app'
    unfolding act move_selection speed_up speed_down
    act-Pressed key quit app app' e =
        subst (Pressed key app) (some-eq _ _ e) (quietly key app _ refl refl)
    act-Pressed key restore_normal app app' e = subst (Pressed key app) (some-eq _ _ e) (
        silent key app _ (
          restore-Adjusted host os Never (IsStored host os app) keeps (text "System Restored") app))
    act-Pressed key faster app app' e =
        subst (Pressed key app) (some-eq _ _ e)
          (speed-Pressed key (ltb min_refresh_delay app.refresh_delay) _ app)
    act-Pressed key slower app app' e =
        subst (Pressed key app) (some-eq _ _ e)
          (speed-Pressed key (ltb app.refresh_delay max_refresh_delay) _ app)
    act-Pressed key previous app app' e =
        subst (Pressed key app) (some-eq _ _ e) (quietly key app _ refl refl)
    act-Pressed key following app app' e =
        subst (Pressed key app) (some-eq _ _ e) (quietly key app _ refl refl)
    act-Pressed key lower app app' e =
        on_row-Pressed key _ (item_at app.items app.selected) app app' refl
          (λ item. handle_left-Adjusted host os keeps (IsStored host os app) item app) e
    act-Pressed key raise app app' e =
        on_row-Pressed key _ (item_at app.items app.selected) app app' refl
          (λ item. handle_right-Adjusted host os keeps (IsStored host os app) item app) e
    act-Pressed key execute app app' e =
        on_row-Pressed key _ (item_at app.items app.selected) app app' refl
          (λ item. handle_enter-Adjusted host os (IsStored host os app) keeps item app (λ n s. s)) e
    act-Pressed key nothing app app' e =
        subst (Pressed key app) (some-eq _ _ e) (quietly key app _ refl refl)

    confirm_extreme_mode-Changes :
        (app : App F H)
        → Changes host os
            (IsStored host os app)
            app.backend
            app.world
            (confirm_extreme_mode host os app).world
    unfolding confirm_extreme_mode use_profile stop_background_daemon save_config stop_daemon
        set_toast
    confirm_extreme_mode-Changes app =
        moved (apply_profile-Moves os keeps app.backend extreme app.world)

    answer-Pressed :
        (key : Key) (a : Answer) (app : App F H)
        → answer_of key ≡ a
        → app.confirm_extreme ≡ true
        → Pressed key app (answer host os a app)
    unfolding answer cancel_extreme_mode
    answer-Pressed key agreed app e asking = record {
      changed = confirm_extreme_mode-Changes app;
      confirmed = λ _. inr (inr (asking, e));
    }
    answer-Pressed key refused app e asking = quietly key app _ refl refl
    answer-Pressed key unheard app e asking = quietly key app _ refl refl

    respond-Pressed :
        (asking : Bool) (key : Key) (app app' : App F H)
        → app.confirm_extreme ≡ asking
        → respond host os asking key app ≡ some app'
        → Pressed key app app'
    unfolding respond
    respond-Pressed true key app app' c e =
        subst (Pressed key app) (some-eq _ _ e) (answer-Pressed key (answer_of key) app refl c)
    respond-Pressed false key app app' c e = act-Pressed key (action_of key) app app' e

    press-Pressed :
        (key : Key) (app app' : App F H) → press host os key app ≡ some app' → Pressed key app app'
    unfolding press
    press-Pressed key app app' e = respond-Pressed app.confirm_extreme key app app' refl e

    -- Whatever key is pressed in whatever state of the dashboard, the hardware changes only by
    -- operations of the backend (each frequency, power and GPU write lies in the range that the
    -- machine declares when its component begins, and the brightness is 1 to 100 percent of the
    -- maximum that a device declares, in 64-bit arithmetic), by a radio switch, a drop of the page
    -- cache, a writeback time of 1 to 60 seconds, a charge limit of 55 to 100 or the one that the
    -- file of the calibration holds once the daemon is told to stop, or by the command line run
    -- with privileges, for no limit or one of 55 to 100. The kernel is assumed to keep a RAPL
    -- zone's constraints where a power limit is written.
    pub press-Changes :
        (key : Key) (app app' : App F H)
        → press host os key app ≡ some app'
        → Changes host os (IsStored host os app) app.backend app.world app'.world
    press-Changes key app app' e = (press-Pressed key app app' e).changed

    -- After a key the configuration names Extreme Mode only where it did so before, where the question
    -- about it was on the screen and the key is the one that agrees, or where the row of the charge
    -- limit was selected, an elevated run of the command line has succeeded, and the configuration is
    -- the one that the file holds after that run. The kernel is assumed to keep a RAPL zone's
    -- constraints where a power limit is written.
    pub press-IsConfirmed :
        (key : Key) (app app' : App F H)
        → press host os key app ≡ some app'
        → app'.config.profile ≡ some extreme
        → IsConfirmed key app app'
    press-IsConfirmed key app app' e chosen = (press-Pressed key app app' e).confirmed chosen
