-- ===== src/Cli/Report.antt =====
-- crates/wattwarden-cli/src/cli.rs: the texts of `--help`, `--health` and `--status`.
use wattwarden.Base.{
  ℕ, zero, suc, Text, text, not, Option, none, some, List, [], ◌∷◌, ◌++◌, if◌then◌else◌, to_string,
}
use wattwarden.Core.Float.{Float}
use wattwarden.Core.BatteryHealth.{
  BatteryHealth, HealthUnit, health_pct, display_label, scale_to_display,
}
use wattwarden.Cli.Runtime.{HealthReport}

-- `print_help`
unfoldable pub help_lines : List Text
help_lines =
    text "⚡ WattWarden - Hardware Power & Auto-Brightness Management"
    ∷ []
    ∷ text "Usage:"
    ∷ text "  sudo wattwarden                   Launch interactive TUI Dashboard"
    ∷ text "  sudo wattwarden --daemon          Run background auto-tuning daemon in foreground"
    ∷ text
        "  sudo wattwarden --start           Start background daemon (persists after closing terminal)"
    ∷ text "  sudo wattwarden --stop            Stop background daemon"
    ∷ text "  sudo wattwarden --status          Check background daemon status"
    ∷ text "  sudo wattwarden --brightness <on|off> Configure auto-brightness setting"
    ∷ text "  sudo wattwarden --install-service Install & enable auto-start system service"
    ∷ text "  sudo wattwarden --uninstall-service Remove system service"
    ∷ text "  sudo wattwarden --health          Show battery health, charge limit and suggestions"
    ∷ text "  sudo wattwarden --charge-limit <55-100|off> Set or clear the battery charge ceiling"
    ∷ text "  sudo wattwarden --calibrate <start|status|done|abort> Recalibrate the battery gauge"
    ∷ text "  sudo wattwarden profile <name>    Apply profile (normal, performance, extreme, auto)"
    ∷ text "  sudo wattwarden level <low|medium|high> Set Auto Extreme adaptive level"
    ∷ text
        "  sudo wattwarden brightness <val>  Set display brightness (1-100) or toggle auto (on/off)"
    ∷ text "  sudo wattwarden service <install|uninstall> Manage the background system service"
    ∷ []

-- `{:<n}`
unfoldable pub pad : ℕ → Text → Text
pad zero s = s
pad (suc n) [] = b' ' ∷ pad n []
pad (suc n) (c ∷ s) = c ∷ pad n s

-- `lines.join("\n")`
unfoldable pub join_lines : List Text → Text
join_lines [] = []
join_lines (line ∷ []) = line
join_lines (line ∷ next ∷ rest) = line ++ (10 ∷ join_lines (next ∷ rest))

-- `unwrap_or_else(|| "not reported")`
abbrev reported : Option Text → Text
reported none = text "not reported"
reported (some s) = s

-- `Option::map`
abbrev map_text : {A : Type 0} → (A → Text) → Option A → Option Text
map_text f none = none
map_text f (some a) = some (f a)

limit_or_unset : Option ℕ → Text
limit_or_unset none = text "not set"
limit_or_unset (some limit) = to_string limit ++ text "%"

device_line : Option Text → Option Text → Text
device_line (some mfr) (some model) = mfr ++ (text " " ++ model)
device_line none (some model) = model
device_line (some mfr) none = mfr
device_line none none = text "Unknown"

-- The two capacities behind the percentage, where both are known.
capacities : HealthUnit → Option ℕ → Option ℕ → Text
capacities unit (some full) (some design) =
    text " ("
    ++ (to_string (scale_to_display unit full)
        ++ (text "/"
            ++ (to_string (scale_to_display unit design) ++ (text ") " ++ display_label unit))))
capacities unit full design = []

module _ {F : Type 0} (float : Float F) where
  open float use {display, one_decimal}

  percent_text : F → Text
  percent_text pct = display pct ++ text "%"

  health_line : BatteryHealth F → Option F → Option HealthUnit → Text
  unfolding percent_text capacities
  health_line h (some pct) (some unit) = percent_text pct ++ capacities unit h.full h.design
  health_line h (some pct) none = text "not reported"
  health_line h none unit = text "not reported"

  limit_line : Option ℕ → Option ℕ → Text
  limit_line (some c) (some a) =
      text "configured "
      ++ (to_string c ++ (text "% (active threshold " ++ (to_string a ++ text "%)")))
  limit_line (some c) none = text "configured " ++ (to_string c ++ text "% (threshold not exposed)")
  limit_line none (some a) = text "not set (active threshold " ++ (to_string a ++ text "%)")
  limit_line none none = text "not set"

  labelled : Text → Text → Text
  unfolding pad
  labelled label value = text "  " ++ (pad 14 label ++ (text ": " ++ value))

  suggestion : Option ℕ → List Text
  suggestion none =
      []
      ∷ text
          "  Suggestion: sudo wattwarden charge-limit 80 — WattWarden never applies this by itself."
      ∷ []
  suggestion (some limit) = []

  unfoldable pub render_health : HealthReport F → Text
  unfolding device_line health_line limit_line labelled suggestion join_lines
  render_health r =
      if not r.present
      then text "No battery detected (stationary mains)."
      else let h = r.health in
        join_lines (
          (text "Battery Health"
            ∷ labelled (text "Device") (device_line h.manufacturer h.model)
            ∷ labelled (text "Health") (health_line h (health_pct float h) h.unit)
            ∷ labelled (text "Cycles") (reported (map_text to_string h.cycle_count))
            ∷ labelled (text "Temperature")
                (reported (map_text (λ t. one_decimal t ++ text "°C") h.temp_c))
            ∷ labelled (text "Charge") (
                to_string r.capacity
                ++ (text "% ("
                    ++ ((if r.charging then text "Charging" else text "Discharging") ++ text ")")))
            ∷ labelled (text "Charge limit") (limit_line r.configured_limit r.active_threshold)
            ∷ labelled (text "Est. time") r.time_remaining
            ∷ [])
          ++ suggestion r.configured_limit)

  unfoldable pub render_status_battery : HealthReport F → Option Text
  unfolding percent_text limit_or_unset
  render_status_battery r =
      if not r.present
      then none
      else some (
          text "Battery Health: "
          ++ (reported (map_text percent_text (health_pct float r.health))
              ++ (text " | Charge limit: " ++ limit_or_unset r.configured_limit)))
