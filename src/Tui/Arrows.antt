-- ===== src/Tui/Arrows.antt =====
-- crates/wattwarden-tui/src/app.rs: `handle_left` and `handle_right`.
pub mod Changed
use wattwarden.Base.{
  ℕ, ◌-◌, ◌%◌, ◌^◌, text, Bool, true, false, Option, min, max, if◌then◌else◌, ℤ, pos, ◌+ℤ◌, ◌-ℤ◌,
  signed64, bits64,
}
use wattwarden.Sysfs.{Os}
use wattwarden.Rapl.{pl1_watts, pl2_watts, set_pl1_watts, set_pl2_watts}
use wattwarden.Tui.Menu
use wattwarden.Tui.Menu.{ActionItem, stops_daemon_on_adjust}
use wattwarden.Tui.App.{Host, App, stop_daemon}
use wattwarden.Tui.Adjust.{
  wrapping_add, toggle_boolean, step_cores, step_freq, step_gpu, step_power, step_brightness,
  step_writeback, cycle_charge_limit,
}

-- `saturating_sub(step).max(min)`
abbrev pub lower_by : ℕ → ℕ → ℕ × ℕ → ℕ
lower_by step current range = max (current - step) range.0

-- `(current + step).min(max)`
abbrev pub raise_by : ℕ → ℕ → ℕ × ℕ → ℕ
raise_by step current range = min (wrapping_add (2 ^ 32) current step) range.1

-- A sum of i64, which wraps in a release build.
abbrev wrapped : ℤ → ℤ
wrapped v = signed64 (bits64 v)

module _ {F H : Type 0} (host : Host H) (os : Os) where
  -- The daemon makes way for a manual adjustment.
  make_way : ActionItem → App F H → App F H
  unfolding stop_daemon
  make_way item app = if stops_daemon_on_adjust item then stop_daemon host app else app

  adjust_left : ActionItem → App F H → App F H
  unfolding step_cores step_freq step_gpu step_power step_brightness step_writeback
  adjust_left Menu.cores app = step_cores host os (λ n total. max (n - 1) 1) app
  adjust_left Menu.freq_limit app = step_freq host os (lower_by 100) app
  adjust_left Menu.gpu_freq app = step_gpu host os (lower_by 50) app.backend.gpu app
  adjust_left Menu.rapl_pl1 app =
      step_power host os (lower_by 2) pl1_watts (set_pl1_watts os) (text "RAPL PL1: ")
        app.backend.rapl app
  adjust_left Menu.rapl_pl2 app =
      step_power host os (lower_by 2) pl2_watts (set_pl2_watts os) (text "RAPL PL2: ")
        app.backend.rapl app
  adjust_left Menu.brightness app =
      step_brightness host os (λ n. max (n - 5) 1) app.backend.backlight app
  adjust_left Menu.vm_writeback app = step_writeback host os (λ v. wrapped (v -ℤ pos 1)) app
  adjust_left Menu.charge_limit app = cycle_charge_limit host os false app
  adjust_left Menu.epp app = app
  adjust_left Menu.aspm app = app
  adjust_left item app = toggle_boolean host os item app

  adjust_right : ActionItem → App F H → App F H
  unfolding step_cores step_freq step_gpu step_power step_brightness step_writeback
  adjust_right Menu.cores app =
      step_cores host os (λ n total. min (wrapping_add (2 ^ 64) n 1) total) app
  adjust_right Menu.freq_limit app = step_freq host os (raise_by 100) app
  adjust_right Menu.gpu_freq app = step_gpu host os (raise_by 50) app.backend.gpu app
  adjust_right Menu.rapl_pl1 app =
      step_power host os (raise_by 2) pl1_watts (set_pl1_watts os) (text "RAPL PL1: ")
        app.backend.rapl app
  adjust_right Menu.rapl_pl2 app =
      step_power host os (raise_by 2) pl2_watts (set_pl2_watts os) (text "RAPL PL2: ")
        app.backend.rapl app
  adjust_right Menu.brightness app =
      step_brightness host os (λ n. min (wrapping_add (2 ^ 8) n 5) 100) app.backend.backlight app
  adjust_right Menu.vm_writeback app = step_writeback host os (λ v. wrapped (v +ℤ pos 1)) app
  adjust_right Menu.charge_limit app = cycle_charge_limit host os true app
  adjust_right Menu.epp app = app
  adjust_right Menu.aspm app = app
  adjust_right item app = toggle_boolean host os item app

  -- On the row that is selected.
  unfoldable pub handle_left : ActionItem → App F H → App F H
  unfolding make_way adjust_left
  handle_left item app = adjust_left item (make_way item app)

  unfoldable pub handle_right : ActionItem → App F H → App F H
  unfolding make_way adjust_right
  handle_right item app = adjust_right item (make_way item app)
