-- ===== src/Tui/Menu.antt =====
-- crates/wattwarden-tui/src/app.rs: the rows of the menu, the selection and the cycle of the charge
-- limit.
pub mod Steps
pub mod Cycle
use wattwarden.Base.{
  ℕ, zero, suc, ◌+◌, ◌-◌, ◌%◌, Text, text, text_eq, Bool, true, false, not, Option, none, some,
  List, [], ◌∷◌, ◌++◌, drop, length, ltb, ◌==◌, if◌then◌else◌,
}

pub data ActionItem : Type 0 where
  header : Text → ActionItem
  profile_performance profile_extreme profile_auto_extreme auto_extreme_level : ActionItem
  auto_brightness profile_restore : ActionItem
  health_line cycle_line temp_line charge_limit calibration calibrate calib_restore : ActionItem
  cores freq_limit gpu_freq rapl_pl1 rapl_pl2 turbo epp aspm : ActionItem
  brightness kbd_backlight bluetooth wifi_enable : ActionItem
  wifi_power_save audio_power_save autosuspend watchdog vm_writeback process_purge : ActionItem

unfoldable pub is_header : ActionItem → Bool
is_header (header title) = true
is_header item = false

-- A manual adjustment of the hardware stops the daemon. The charge limit does not, since the daemon
-- enforces it.
unfoldable pub stops_daemon_on_adjust : ActionItem → Bool
stops_daemon_on_adjust cores = true
stops_daemon_on_adjust freq_limit = true
stops_daemon_on_adjust gpu_freq = true
stops_daemon_on_adjust rapl_pl1 = true
stops_daemon_on_adjust rapl_pl2 = true
stops_daemon_on_adjust turbo = true
stops_daemon_on_adjust kbd_backlight = true
stops_daemon_on_adjust bluetooth = true
stops_daemon_on_adjust wifi_enable = true
stops_daemon_on_adjust wifi_power_save = true
stops_daemon_on_adjust audio_power_save = true
stops_daemon_on_adjust autosuspend = true
stops_daemon_on_adjust watchdog = true
stops_daemon_on_adjust vm_writeback = true
stops_daemon_on_adjust item = false

-- The cycle of the charge ceiling.
unfoldable pub steps : List (Option ℕ)
steps =
    none
    ∷ some 55
    ∷ some 60
    ∷ some 65
    ∷ some 70
    ∷ some 75
    ∷ some 80
    ∷ some 85
    ∷ some 90
    ∷ some 95
    ∷ some 100
    ∷ []

abbrev same_limit : Option ℕ → Option ℕ → Bool
same_limit none none = true
same_limit none (some b) = false
same_limit (some a) none = false
same_limit (some a) (some b) = a == b

-- `position`, or 0; the first argument is the position of the list's head.
position : ℕ → Option ℕ → List (Option ℕ) → ℕ
position i limit [] = 0
position i limit (v ∷ vs) =
    let later = position (i + 1) limit vs in if same_limit v limit then i else later

-- `steps[i]`; `next_charge_limit` takes an index below the number of steps only.
step_at : List (Option ℕ) → ℕ → Option ℕ
step_at [] i = none
step_at (v ∷ vs) zero = v
step_at (v ∷ vs) (suc i) = step_at vs i

unfoldable pub next_charge_limit : Option ℕ → Bool → Option ℕ
unfolding steps position step_at
next_charge_limit current forward =
    let idx = position 0 current steps in
    step_at steps
      (if forward then (idx + 1) % length steps else (idx + length steps - 1) % length steps)

-- `items[i]`, which panics out of range.
unfoldable pub item_at : List ActionItem → ℕ → Option ActionItem
item_at [] i = none
item_at (item ∷ items) zero = some item
item_at (item ∷ items) (suc i) = item_at items i

-- The position of the first row that is no header; the first argument is that of the list's head.
first_entry : ℕ → List ActionItem → Option ℕ
unfolding is_header
first_entry i [] = none
first_entry i (item ∷ items) =
    let later = first_entry (i + 1) items in if is_header item then later else some i

abbrev pub is_entry : Option ActionItem → Bool
is_entry none = false
is_entry (some item) = not (is_header item)

-- The last row that is no header among the first `n`.
last_entry : List ActionItem → ℕ → Option ℕ
last_entry items zero = none
last_entry items (suc n) =
    let earlier = last_entry items n in if is_entry (item_at items n) then some n else earlier

-- `unwrap_or`
abbrev or_stay : ℕ → Option ℕ → ℕ
or_stay n none = n
or_stay n (some k) = k

-- One row down or up, over the headers; at either end the selection stays.
unfoldable pub step_selection : List ActionItem → ℕ → Bool → ℕ
unfolding first_entry last_entry
step_selection items selected forward =
    if forward
    then or_stay selected (first_entry (selected + 1) (drop (selected + 1) items))
    else or_stay selected (last_entry items selected)

abbrev profile_rows : List ActionItem
profile_rows =
    header (text "─── [ PROFILES ] ───────────────────────")
    ∷ profile_performance
    ∷ profile_extreme
    ∷ profile_auto_extreme
    ∷ auto_extreme_level
    ∷ auto_brightness
    ∷ profile_restore
    ∷ header []
    ∷ header (text "─── [ BATTERY ] ───────────────────────")
    ∷ health_line
    ∷ cycle_line
    ∷ temp_line
    ∷ charge_limit
    ∷ calibration
    ∷ calibrate
    ∷ calib_restore
    ∷ header []
    ∷ []

abbrev linux_rows : List ActionItem
linux_rows =
    header (text "─── [ HARDWARE LIMITS ] ────────────────")
    ∷ cores
    ∷ freq_limit
    ∷ gpu_freq
    ∷ rapl_pl1
    ∷ rapl_pl2
    ∷ turbo
    ∷ epp
    ∷ aspm
    ∷ header []
    ∷ header (text "─── [ PERIPHERALS ] ────────────────────")
    ∷ brightness
    ∷ kbd_backlight
    ∷ bluetooth
    ∷ wifi_enable
    ∷ header []
    ∷ header (text "─── [ SYSTEM TWEAKS ] ──────────────────")
    ∷ wifi_power_save
    ∷ audio_power_save
    ∷ autosuspend
    ∷ watchdog
    ∷ vm_writeback
    ∷ process_purge
    ∷ []

abbrev macos_rows : List ActionItem
macos_rows =
    header (text "─── [ PERIPHERALS & NETWORKING ] ──────")
    ∷ brightness
    ∷ wifi_enable
    ∷ bluetooth
    ∷ header []
    ∷ header (text "─── [ SYSTEM MEMORY ] ──────────────────")
    ∷ process_purge
    ∷ []

-- The rows of the operating system.
unfoldable pub build_menu : Text → List ActionItem
build_menu os_name =
    profile_rows
    ++ (if text_eq os_name (text "Linux")
        then linux_rows
        else if text_eq os_name (text "macOS")
        then macos_rows
        else [])

-- The row that is selected first: the first that is no header.
unfoldable pub initial_selected : List ActionItem → ℕ
unfolding first_entry
initial_selected items = or_stay 0 (first_entry 0 items)
