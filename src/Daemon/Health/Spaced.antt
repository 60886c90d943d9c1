-- ===== src/Daemon/Health/Spaced.antt =====
-- How far apart the samples and the warnings are.
use wattwarden.Base.{
  ℕ, ◌+◌, ◌≤◌, ◌≡◌, refl, inl, inr, Bool, true, false, ◌&&◌, not, List, [], ◌∷◌, arith, is_some,
  Bool-cases, All,
}
use wattwarden.Sysfs.{World}
use wattwarden.Core.Config.{Config}
use wattwarden.Battery.{LinuxBattery}
use wattwarden.Daemon.Health.{
  Sample, Telemetry, silent, due, sample, warn, observed, maybe_sample_health, Pass, passes,
}

-- Newest first: each is at least `gap` later than the one before it.
abbrev pub Spaced : ℕ → List ℕ → Type 0
Spaced gap [] = Unit
Spaced gap (a ∷ []) = Unit
Spaced gap (a ∷ b ∷ rest) = (b + gap ≤ a) × Spaced gap (b ∷ rest)

-- The newest is `last`; there is none if `last` is 0.
abbrev IsLast : ℕ → List ℕ → Type 0
IsLast last [] = last ≡ 0
IsLast last (a ∷ rest) = (a ≡ last) × (1 ≤ last)

abbrev Kept : ℕ → ℕ → List ℕ → Type 0
Kept gap last times = Spaced gap times × IsLast last times

push-Kept :
    (gap last now : ℕ) (times : List ℕ)
    → 1 ≤ gap
    → 1 ≤ now
    → due gap last now ≡ true
    → Kept gap last times
    → Kept gap now (now ∷ times)
unfolding due
push-Kept gap last now [] g h e k = (tt, (refl, h))
push-Kept gap last now (a ∷ rest) g h e (spaced, (same, some_time)) =
    ((ground arith, spaced), (refl, h))

-- The times of the samples, newest first.
pub times_of : List Sample → List ℕ
times_of [] = []
times_of (s ∷ ss) = s.time ∷ times_of ss

Good : Telemetry → Type 0
Good t = Kept 3600 t.last_health_log (times_of t.samples) × Kept 600 t.last_temp_warn t.warnings

sample-Good :
    (b : LinuxBattery) (now : ℕ) (w : World) (t : Telemetry)
    → 1 ≤ now
    → Good t
    → Good (sample b now w t)
unfolding sample Good times_of
sample-Good b now w t h (samples, warnings) = elim (Bool-cases (due 3600 t.last_health_log now)) [
  | inl yes_now ↦ rw yes_now (
    push-Kept 3600 t.last_health_log now (times_of t.samples) (omega arith) h yes_now samples,
    warnings,
  )
  | inr later ↦ rw later (samples, warnings)
]

warn-Good : (now : ℕ) (t : Telemetry) → 1 ≤ now → Good t → Good (warn now t)
unfolding warn Good
warn-Good now t h (samples, warnings) = elim (Bool-cases (due 600 t.last_temp_warn now)) [
  | inl yes_now ↦
      rw yes_now
        (samples, push-Kept 600 t.last_temp_warn now t.warnings (omega arith) h yes_now warnings)
  | inr later ↦ rw later (samples, warnings)
]

observed-Good :
    (logging hot : Bool) (b : LinuxBattery) (now : ℕ) (w : World) (t : Telemetry)
    → 1 ≤ now
    → Good t
    → Good (observed logging hot b now w t)
unfolding observed
observed-Good true true b now w t h good =
    warn-Good now (sample b now w t) h (sample-Good b now w t h good)
observed-Good true false b now w t h good = sample-Good b now w t h good
observed-Good false true b now w t h good = warn-Good now t h good
observed-Good false false b now w t h good = good

maybe_sample_health-Good :
    (b : LinuxBattery) (config : Config) (now : ℕ) (w : World) (t : Telemetry)
    → 1 ≤ now
    → Good t
    → Good (maybe_sample_health b config now w t)
unfolding maybe_sample_health
maybe_sample_health-Good b config now w t h good =
    elim (Bool-cases (not config.battery_health_log && not (is_some config.battery_temp_warn_c))) [
      | inl off ↦ rw off good
      | inr on ↦ rw on (observed-Good config.battery_health_log _ b now w t h good)
    ]

-- No pass is at the epoch itself.
abbrev pub IsTimed : Pass → Type 0
IsTimed p = 1 ≤ p.1

passes-Good :
    (b : LinuxBattery) (ps : List Pass) (t : Telemetry)
    → All IsTimed ps
    → Good t
    → Good (passes b ps t)
unfolding passes
passes-Good b [] t timed good = good
passes-Good b ((config, now, w) ∷ ps) t (timed, later) good =
    passes-Good b ps (maybe_sample_health b config now w t) later
      (maybe_sample_health-Good b config now w t timed good)

-- However the configuration, the battery and the clock change from pass to pass, any two successive
-- samples are at least an hour apart, and any two successive warnings at least ten minutes, provided
-- that each pass has a time of at least one second after the epoch.
pub passes-Spaced :
    (b : LinuxBattery) (ps : List Pass)
    → All IsTimed ps
    → Spaced 3600 (times_of (passes b ps silent).samples) × Spaced 600 (passes b ps silent).warnings
unfolding Good times_of
passes-Spaced b ps timed =
    let (samples, warnings) = passes-Good b ps silent timed ((tt, refl), (tt, refl)) in
    (samples.0, warnings.0)
