-- ===== src/Core/Config/Levels.antt =====
-- The ladder of levels.
use wattwarden.Base.{ℕ, ◌≤◌, ◌<◌, ◌≡◌, ◌==◌, min, if◌then◌else◌, arith}
use wattwarden.Core.Config.{low, medium, high, LevelParams, params}

-- The cores that a level leaves online when the machine is idle; 0 stands for all of them.
abbrev pub effective_cores : ℕ → LevelParams → ℕ
effective_cores ncpu p = if p.idle_cores == 0 then ncpu else min p.idle_cores ncpu

-- On a machine with at least one CPU, a higher level leaves no more cores online than a lower one,
-- idles below no higher load, and asks for no less load before it turns turbo on; each level leaves
-- between one core and all of them.
pub effective_cores_ordered :
    (ncpu : ℕ)
    → 1 ≤ ncpu
    → (1 ≤ effective_cores ncpu (params ncpu high))
      × (effective_cores ncpu (params ncpu high) ≤ effective_cores ncpu (params ncpu medium))
      × (effective_cores ncpu (params ncpu medium) ≤ effective_cores ncpu (params ncpu low))
      × (effective_cores ncpu (params ncpu low) ≡ ncpu)
      × ((params ncpu high).idle_threshold < (params ncpu medium).idle_threshold)
      × ((params ncpu medium).idle_threshold < (params ncpu low).idle_threshold)
      × ((params ncpu medium).turbo_from < (params ncpu high).turbo_from)
      × ((params ncpu low).turbo_from < (params ncpu medium).turbo_from)
unfolding params
effective_cores_ordered ncpu h = ground arith
