-- ===== src/Daemon/Health.antt =====
-- crates/wattwarden-daemon/src/daemon.rs: `temp_exceeds_limit` and `maybe_sample_health`. Of the
-- battery's figures only the temperature takes part here; what is written to the file is recorded as
-- samples, newest first, and so are the warnings. The text of a line is in Daemon.Health.Csv.
pub mod Spaced
pub mod Csv
use wattwarden.Base.{
  ℕ, ◌-◌, ◌*◌, Bool, true, false, ◌&&◌, ◌||◌, not, Option, none, some, List, [], ◌∷◌, ℤ, pos, ltb_ℤ,
  leb, ◌==◌, is_some, if◌then◌else◌,
}
use wattwarden.Sysfs.{World, supply, supply_node, temp, read_i64}
use wattwarden.Core.Error.{unwrap_or}
use wattwarden.Core.Config.{Config}
use wattwarden.Battery.{LinuxBattery, battery_percentage, is_charging}

-- Seconds.
abbrev pub health_log_interval_secs : ℕ
health_log_interval_secs = 3600

abbrev pub temp_warn_interval_secs : ℕ
temp_warn_interval_secs = 600

-- The pack's temperature in tenths of a degree, on a machine with a battery.
unfoldable pub temp_of : LinuxBattery → World → Option ℤ
temp_of b w = if b.discovered then read_i64 w (supply_node (supply b.battery) temp) else none

over : Option ℤ → Option ℕ → Bool
over (some t) (some l) = ltb_ℤ (pos (l * 10)) t
over (some t) none = false
over none l = false

-- The temperature is in tenths and the limit in degrees.
unfoldable pub temp_exceeds_limit : Option ℤ → Option ℕ → Bool → Bool
unfolding over
temp_exceeds_limit t l charging = charging && over t l

-- A line of the CSV file: its time, the charge and whether the battery is charging.
pub record Sample : Type 0 where
  pub time : ℕ
  pub capacity : ℕ
  pub charging : Bool

pub record Telemetry : Type 0 where
  -- Epoch seconds of the last sample and of the last warning; 0 stands for never.
  pub last_health_log : ℕ
  pub last_temp_warn : ℕ
  pub samples : List Sample
  pub warnings : List ℕ

abbrev pub silent : Telemetry
silent = record { last_health_log = 0; last_temp_warn = 0; samples = []; warnings = [] }

-- A clock that went back gives a negative difference in the source, which is not due either.
unfoldable pub due : ℕ → ℕ → ℕ → Bool
due gap last now = (last == 0) || leb gap (now - last)

sample : LinuxBattery → ℕ → World → Telemetry → Telemetry
sample b now w t =
    if due health_log_interval_secs t.last_health_log now
    then record t {
      last_health_log = now;
      samples =
          record {
            time = now;
            capacity = unwrap_or 0 (battery_percentage b w);
            charging = unwrap_or false (is_charging b w);
          }
          ∷ t.samples;
    }
    else t

warn : ℕ → Telemetry → Telemetry
warn now t =
    if due temp_warn_interval_secs t.last_temp_warn now
    then record t { last_temp_warn = now; warnings = now ∷ t.warnings }
    else t

-- The first argument is `battery_health_log`, the second whether the pack is too hot.
observed : Bool → Bool → LinuxBattery → ℕ → World → Telemetry → Telemetry
unfolding sample warn
observed logging hot b now w t =
    let logged = if logging then sample b now w t else t in if hot then warn now logged else logged

unfoldable pub maybe_sample_health : LinuxBattery → Config → ℕ → World → Telemetry → Telemetry
unfolding observed
maybe_sample_health b config now w t =
    if not config.battery_health_log && not (is_some config.battery_temp_warn_c)
    then t
    else observed config.battery_health_log
        (temp_exceeds_limit (temp_of b w) config.battery_temp_warn_c
          (unwrap_or false (is_charging b w)))
        b now w t

-- A pass at some time, with the configuration and the machine of the moment.
abbrev pub Pass : Type 0
Pass = Config × ℕ × World

unfoldable pub passes : LinuxBattery → List Pass → Telemetry → Telemetry
passes b [] t = t
passes b ((config, now, w) ∷ ps) t = passes b ps (maybe_sample_health b config now w t)
