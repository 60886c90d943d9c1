-- ===== src/Tui/Keys/Valid.antt =====
-- The dashboard never loses its selection: its invariant, and the sessions that keep it.
use wattwarden.Base.{
  ℕ, ◌+◌, ◌-◌, ◌≤◌, Text, text, Bool, true, false, Option, none, some, List, [], ◌∷◌, ◌++◌, length,
  skip_one, ltb, ◌≡◌, refl, sym, inl, inr, subst, arith, Bool-cases,
}
use wattwarden.Core.Error.{Result, ok, err}
use wattwarden.Core.Float.{Float}
use wattwarden.Core.Config.{Config}
use wattwarden.Sysfs.{World, Os}
use wattwarden.Sysfs.Stable.{Keeps}
use wattwarden.Rapl.Writes.{IsPowerLimit, IsConstraint}
use wattwarden.Backend.{LinuxBackend}
use wattwarden.Tui.Menu.{ActionItem, is_header, is_entry, item_at, build_menu, initial_selected}
use wattwarden.Tui.Menu.Steps.{step_selection-is_entry}
use wattwarden.Tui.App.{
  Host, App, min_refresh_delay, max_refresh_delay, history_capacity, new, record_sample, tick,
  refresh_daemon_state, set_delay, take_sample, speed_up, speed_down, use_profile,
  confirm_extreme_mode, cancel_extreme_mode, stop_background_daemon, save_config, set_toast, sample,
  stop_daemon,
}
use wattwarden.Tui.Arrows.Changed.{handle_left-Adjusted, handle_right-Adjusted}
use wattwarden.Tui.Changes.{frame, Never, Reread, Adjusted}
use wattwarden.Tui.Changes.Basic.{refresh_daemon_state-Adjusted}
use wattwarden.Tui.Keys.{
  Key, Action, quit, restore_normal, faster, slower, previous, following, lower, raise, execute,
  nothing, Answer, agreed, refused, unheard, action_of, answer_of, on_row, act, answer, respond,
  press, move_selection,
}
use wattwarden.Tui.Keys.Changed.{handle_enter-Adjusted, restore-Adjusted}

module _ {F H : Type 0} where
  -- The selection is on a row that is no header, the sampling interval is between half a second and
  -- ten, and there are at most as many samples as the graph keeps.
  pub record IsValid (app : App F H) : Type 0 where
    pub selectable : is_entry (item_at app.items app.selected) ≡ true
    pub not_too_fast : min_refresh_delay ≤ app.refresh_delay
    pub not_too_slow : app.refresh_delay ≤ max_refresh_delay
    pub not_too_many : length app.history ≤ history_capacity

  kept-IsValid : (a b : App F H) → frame b ≡ frame a → IsValid a → IsValid b
  kept-IsValid a b e v = record {
    selectable = subst (λ f. is_entry (item_at f.0 f.1) ≡ true) (sym e) v.selectable;
    not_too_fast = subst (λ f. min_refresh_delay ≤ f.2) (sym e) v.not_too_fast;
    not_too_slow = subst (λ f. f.2 ≤ max_refresh_delay) (sym e) v.not_too_slow;
    not_too_many = subst (λ f. length f.3 ≤ history_capacity) (sym e) v.not_too_many;
  }

length-snoc {ℓ} : {A : Type ℓ} (x : A) (xs : List A) → length (xs ++ (x ∷ [])) ≡ length xs + 1
length-snoc x [] = omega arith
length-snoc x (y ∷ ys) = let ih = length-snoc x ys in omega arith

length-skip_one {ℓ} : {A : Type ℓ} (xs : List A) → length (skip_one xs) ≡ length xs - 1
length-skip_one [] = refl
length-skip_one (x ∷ xs) = omega arith

module _ {F : Type 0} where
  -- A sample more never makes too many of them.
  length-record_sample :
      (x : F) (history : List F)
      → length history ≤ history_capacity
      → length (record_sample x history) ≤ history_capacity
  unfolding record_sample
  length-record_sample x history h =
      let e = length-snoc x history in
      let k = length-skip_one (history ++ (x ∷ [])) in
      elim (Bool-cases (ltb history_capacity (length (history ++ (x ∷ []))))) [
        | inl full ↦ rw full (omega arith)
        | inr room ↦ rw room (ground arith)
      ]

  length-sample :
      (float : Float F) (r : Result F) (history : List F)
      → length history ≤ history_capacity
      → length (sample float r history) ≤ history_capacity
  unfolding sample
  length-sample float (err e) history h = h
  length-sample float (ok x) history h = elim (Bool-cases (float.lt (float.of_nat 0) x)) [
    | inl drawn ↦ rw drawn (length-record_sample x history h)
    | inr idle ↦ rw idle h
  ]

module _ {F H : Type 0} (host : Host H) (os : Os) where
  -- The dashboard begins on a row that can be selected, whatever the operating system.
  pub new-IsValid :
      (name : Text) (w : World) (h : H) (backend : LinuxBackend) (config : Config)
      → IsValid (new {F = F} host name w h backend config)
  unfolding new build_menu initial_selected item_at is_header
  new-IsValid name w h backend config = record {
    selectable = refl;
    not_too_fast = omega arith;
    not_too_slow = omega arith;
    not_too_many = omega arith;
  }

  move_selection-IsValid :
      (forward : Bool) (app : App F H) → IsValid app → IsValid (move_selection host os forward app)
  unfolding move_selection
  move_selection-IsValid forward app v = record {
    selectable = step_selection-is_entry app.items app.selected forward v.selectable;
    not_too_fast = v.not_too_fast;
    not_too_slow = v.not_too_slow;
    not_too_many = v.not_too_many;
  }

  -- A new interval is within its bounds.
  set_delay-IsValid :
      (delay : ℕ) (app : App F H)
      → min_refresh_delay ≤ delay
      → delay ≤ max_refresh_delay
      → IsValid app
      → IsValid (set_delay host delay app)
  unfolding set_delay set_toast
  set_delay-IsValid delay app lo hi v = record {
    selectable = v.selectable;
    not_too_fast = lo;
    not_too_slow = hi;
    not_too_many = v.not_too_many;
  }

  speed_up-IsValid : (app : App F H) → IsValid app → IsValid (speed_up host app)
  unfolding speed_up
  speed_up-IsValid app v = elim (Bool-cases (ltb min_refresh_delay app.refresh_delay)) [
    | inl above ↦
        rw above (let hi = v.not_too_slow in set_delay-IsValid _ app (omega arith) (omega arith) v)
    | inr least ↦ rw least v
  ]

  speed_down-IsValid : (app : App F H) → IsValid app → IsValid (speed_down host app)
  unfolding speed_down
  speed_down-IsValid app v = elim (Bool-cases (ltb app.refresh_delay max_refresh_delay)) [
    | inl below ↦
        rw below (let lo = v.not_too_fast in set_delay-IsValid _ app (omega arith) (omega arith) v)
    | inr most ↦ rw most v
  ]

  confirm_extreme_mode-IsValid :
      (app : App F H) → IsValid app → IsValid (confirm_extreme_mode host os app)
  unfolding confirm_extreme_mode use_profile stop_background_daemon stop_daemon save_config
      set_toast
  confirm_extreme_mode-IsValid app v = kept-IsValid app _ refl v

  take_sample-IsValid :
      (float : Float F) (app : App F H) → IsValid app → IsValid (take_sample host float app)
  unfolding take_sample
  take_sample-IsValid float app v =
      elim (Bool-cases (ltb (host.now app.host - app.last_update) app.refresh_delay)) [
        | inl early ↦ rw early v
        | inr due ↦ rw due (record {
          selectable = v.selectable;
          not_too_fast = v.not_too_fast;
          not_too_slow = v.not_too_slow;
          not_too_many = length-sample float _ app.history v.not_too_many;
        })
      ]

  -- A tick of the loop keeps the invariant.
  pub tick-IsValid : (float : Float F) (app : App F H) → IsValid app → IsValid (tick host float app)
  unfolding tick
  tick-IsValid float app v =
      take_sample-IsValid float (refresh_daemon_state host app) (
        kept-IsValid app _ (refresh_daemon_state-Adjusted host os Never (λ n. Unit {0}) app).kept v)

-- It does not panic, and what it leaves satisfies `P`.
abbrev pub Succeeds : {A : Type 0} → (A → Type 0) → Option A → Type 0
Succeeds P none = ⊥
Succeeds P (some a) = P a

module _ {F H : Type 0} (host : Host H) (os : Os) (keeps : Keeps os IsPowerLimit IsConstraint) where
  on_row-IsValid :
      (handle : ActionItem → App F H → App F H) (o : Option ActionItem) (app : App F H)
      → ((item : ActionItem)
          → Adjusted host os (Reread host item) (λ n. Unit {0}) app (handle item app))
      → is_entry o ≡ true
      → IsValid app
      → Succeeds IsValid (on_row host os handle o app)
  unfolding on_row
  on_row-IsValid handle none app h e v = absurd (cc)
  on_row-IsValid handle (some item) app h e v = kept-IsValid app _ (h item).kept v

  act-IsValid :
      (action : Action) (app : App F H) → IsValid app → Succeeds IsValid (act host os action app)
  unfolding act
  act-IsValid quit app v = kept-IsValid app _ refl v
  act-IsValid restore_normal app v =
      kept-IsValid app _
        (restore-Adjusted host os Never (λ n. Unit {0}) keeps (text "System Restored") app).kept v
  act-IsValid faster app v = speed_up-IsValid host os app v
  act-IsValid slower app v = speed_down-IsValid host os app v
  act-IsValid previous app v = move_selection-IsValid host os false app v
  act-IsValid following app v = move_selection-IsValid host os true app v
  act-IsValid lower app v =
      on_row-IsValid _ (item_at app.items app.selected) app
        (λ item. handle_left-Adjusted host os keeps (λ n. Unit {0}) item app) v.selectable v
  act-IsValid raise app v =
      on_row-IsValid _ (item_at app.items app.selected) app
        (λ item. handle_right-Adjusted host os keeps (λ n. Unit {0}) item app) v.selectable v
  act-IsValid execute app v =
      on_row-IsValid _ (item_at app.items app.selected) app
        (λ item. handle_enter-Adjusted host os (λ n. Unit {0}) keeps item app (λ n s. tt))
        v.selectable v
  act-IsValid nothing app v = v

  answer-IsValid : (a : Answer) (app : App F H) → IsValid app → IsValid (answer host os a app)
  unfolding answer cancel_extreme_mode
  answer-IsValid agreed app v = confirm_extreme_mode-IsValid host os app v
  answer-IsValid refused app v = kept-IsValid app _ refl v
  answer-IsValid unheard app v = v

  respond-IsValid :
      (asking : Bool) (key : Key) (app : App F H)
      → IsValid app
      → Succeeds IsValid (respond host os asking key app)
  unfolding respond
  respond-IsValid true key app v = answer-IsValid (answer_of key) app v
  respond-IsValid false key app v = act-IsValid (action_of key) app v

  -- No key makes the program panic, and every key keeps the selection on a row, the interval within
  -- its bounds and the number of samples within the graph's capacity.
  pub press-IsValid :
      (key : Key) (app : App F H) → IsValid app → Succeeds IsValid (press host os key app)
  unfolding press
  press-IsValid key app v = respond-IsValid app.confirm_extreme key app v

-- The states that the loop goes through, from the first on.
pub data Reached {F H : Type 0} (float : Float F) (host : Host H) (os : Os) : App F H → Type 0 where
  opened :
      (name : Text) (w : World) (h : H) (backend : LinuxBackend) (config : Config)
      → Reached float host os (new host name w h backend config)
  -- Between two steps the machine and the other processes go on.
  meanwhile :
      {app : App F H} (w : World) (h : H)
      → Reached float host os app
      → Reached float host os (record app { world = w; host = h })
  ticked : {app : App F H} → Reached float host os app → Reached float host os (tick host float app)
  pressed :
      {app app' : App F H} (key : Key)
      → press host os key app ≡ some app'
      → Reached float host os app
      → Reached float host os app'

module _ {F H : Type 0} (float : Float F) (host : Host H) (os : Os)
    (keeps : Keeps os IsPowerLimit IsConstraint) where
  pub Reached-IsValid : (app : App F H) → Reached float host os app → IsValid app
  Reached-IsValid app (opened name w h backend config) = new-IsValid host os name w h backend config
  Reached-IsValid app (meanwhile {app = before} w h r) =
      kept-IsValid before app refl (Reached-IsValid before r)
  Reached-IsValid app (ticked {app = before} r) =
      tick-IsValid host os float before (Reached-IsValid before r)
  Reached-IsValid app (pressed {app = before} key e r) =
      subst (Succeeds IsValid) e (press-IsValid host os keeps key before (Reached-IsValid before r))

  -- In every state that the loop reaches, whatever the machine and other processes do in between, the
  -- selection is on a row that is no header, the interval is between half a second and ten, there are
  -- at most 400 samples, and the next key does not make the program panic. The kernel is assumed to
  -- keep a RAPL zone's constraints where a power limit is written. The program is a release build, in
  -- which a sum that overflows wraps around; a debug build would panic there.
  pub Reached-press :
      (app : App F H)
      → Reached float host os app
      → IsValid app × ((key : Key) → (app' : App F H) × (press host os key app ≡ some app'))
  Reached-press app r = (
    Reached-IsValid app r,
    λ key. result (press-IsValid host os keeps key app (Reached-IsValid app r)),
  )
    where
      result : {o : Option (App F H)} → Succeeds IsValid o → (app' : App F H) × (o ≡ some app')
      result {o = none} h = absurd h
      result {o = some a} h = (a, refl)
