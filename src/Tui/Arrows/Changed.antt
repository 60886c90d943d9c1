-- ===== src/Tui/Arrows/Changed.antt =====
-- What the arrows to the left and right change.
use wattwarden.Base.{ℕ, text, true, false, refl}
use wattwarden.Sysfs.{Os}
use wattwarden.Sysfs.Stable.{Keeps}
use wattwarden.Rapl.Writes.{IsPowerLimit, IsConstraint}
use wattwarden.Rapl.{pl1_watts, pl2_watts, set_pl1_watts, set_pl2_watts}
use wattwarden.Backend.Moves.Operations.{set_pl1_watts-Moves, set_pl2_watts-Moves}
use wattwarden.Tui.Menu
use wattwarden.Tui.Menu.{ActionItem, stops_daemon_on_adjust}
use wattwarden.Tui.App.{Host, App}
use wattwarden.Tui.Adjust.Changed.{
  toggle_boolean-Adjusted, step_cores-Adjusted, step_freq-Adjusted, step_gpu-Adjusted,
  step_power-Adjusted, step_brightness-Adjusted, step_writeback-Adjusted,
  cycle_charge_limit-Adjusted,
}
use wattwarden.Tui.Changes.{
  IsReloaded, Reread, Never, Adjusted, Adjusted-trans, Adjusted-mono, Adjusted-if, still,
}
use wattwarden.Tui.Changes.Basic.{stop_daemon-Adjusted}
use wattwarden.Tui.Arrows.{
  lower_by, raise_by, make_way, adjust_left, adjust_right, handle_left, handle_right,
}

module _ {F H : Type 0} (host : Host H) (os : Os) (keeps : Keeps os IsPowerLimit IsConstraint)
    (stored : ℕ → Type 0) where
  make_way-Adjusted :
      (item : ActionItem) (app : App F H)
      → Adjusted host os Never stored app (make_way host os item app)
  unfolding make_way
  make_way-Adjusted item app =
      Adjusted-if host os Never stored app _ _ _ (stop_daemon-Adjusted host os Never stored app)
        (still host os Never stored app)

  adjust_left-Adjusted :
      (item : ActionItem) (app : App F H)
      → Adjusted host os (Reread host item) stored app (adjust_left host os item app)
  unfolding adjust_left
  adjust_left-Adjusted Menu.cores app = search (step_cores-Adjusted)
  adjust_left-Adjusted Menu.freq_limit app = search (step_freq-Adjusted)
  adjust_left-Adjusted Menu.gpu_freq app = search (step_gpu-Adjusted)
  adjust_left-Adjusted Menu.rapl_pl1 app =
      step_power-Adjusted host os (Reread host Menu.rapl_pl1) stored (lower_by 2) pl1_watts
        (set_pl1_watts os) (text "RAPL PL1: ") app.backend.rapl app
        (λ r has watts. set_pl1_watts-Moves os app.backend keeps r has watts app.world) refl
  adjust_left-Adjusted Menu.rapl_pl2 app =
      step_power-Adjusted host os (Reread host Menu.rapl_pl2) stored (lower_by 2) pl2_watts
        (set_pl2_watts os) (text "RAPL PL2: ") app.backend.rapl app
        (λ r has watts. set_pl2_watts-Moves os app.backend keeps r has watts app.world) refl
  adjust_left-Adjusted Menu.brightness app = search (step_brightness-Adjusted)
  adjust_left-Adjusted Menu.vm_writeback app = search (step_writeback-Adjusted)
  adjust_left-Adjusted Menu.charge_limit app =
      Adjusted-mono host os (IsReloaded host) stored (Reread host Menu.charge_limit) app _
        (λ r. (refl, r)) (cycle_charge_limit-Adjusted host os stored false app)
  adjust_left-Adjusted Menu.epp app = still host os (Reread host Menu.epp) stored app
  adjust_left-Adjusted Menu.aspm app = still host os (Reread host Menu.aspm) stored app
  adjust_left-Adjusted item app = toggle_boolean-Adjusted host os (Reread host item) stored item app

  adjust_right-Adjusted :
      (item : ActionItem) (app : App F H)
      → Adjusted host os (Reread host item) stored app (adjust_right host os item app)
  unfolding adjust_right
  adjust_right-Adjusted Menu.cores app = search (step_cores-Adjusted)
  adjust_right-Adjusted Menu.freq_limit app = search (step_freq-Adjusted)
  adjust_right-Adjusted Menu.gpu_freq app = search (step_gpu-Adjusted)
  adjust_right-Adjusted Menu.rapl_pl1 app =
      step_power-Adjusted host os (Reread host Menu.rapl_pl1) stored (raise_by 2) pl1_watts
        (set_pl1_watts os) (text "RAPL PL1: ") app.backend.rapl app
        (λ r has watts. set_pl1_watts-Moves os app.backend keeps r has watts app.world) refl
  adjust_right-Adjusted Menu.rapl_pl2 app =
      step_power-Adjusted host os (Reread host Menu.rapl_pl2) stored (raise_by 2) pl2_watts
        (set_pl2_watts os) (text "RAPL PL2: ") app.backend.rapl app
        (λ r has watts. set_pl2_watts-Moves os app.backend keeps r has watts app.world) refl
  adjust_right-Adjusted Menu.brightness app = search (step_brightness-Adjusted)
  adjust_right-Adjusted Menu.vm_writeback app = search (step_writeback-Adjusted)
  adjust_right-Adjusted Menu.charge_limit app =
      Adjusted-mono host os (IsReloaded host) stored (Reread host Menu.charge_limit) app _
        (λ r. (refl, r)) (cycle_charge_limit-Adjusted host os stored true app)
  adjust_right-Adjusted Menu.epp app = still host os (Reread host Menu.epp) stored app
  adjust_right-Adjusted Menu.aspm app = still host os (Reread host Menu.aspm) stored app
  adjust_right-Adjusted item app =
      toggle_boolean-Adjusted host os (Reread host item) stored item app

  pub handle_left-Adjusted :
      (item : ActionItem) (app : App F H)
      → Adjusted host os (Reread host item) stored app (handle_left host os item app)
  unfolding handle_left
  handle_left-Adjusted item app =
      Adjusted-trans host os (Reread host item) stored app (make_way host os item app) _
        (make_way-Adjusted item app) (adjust_left-Adjusted item (make_way host os item app))

  pub handle_right-Adjusted :
      (item : ActionItem) (app : App F H)
      → Adjusted host os (Reread host item) stored app (handle_right host os item app)
  unfolding handle_right
  handle_right-Adjusted item app =
      Adjusted-trans host os (Reread host item) stored app (make_way host os item app) _
        (make_way-Adjusted item app) (adjust_right-Adjusted item (make_way host os item app))
