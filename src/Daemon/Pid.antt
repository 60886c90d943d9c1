-- ===== src/Daemon/Pid.antt =====
-- crates/wattwarden-daemon/src/pid.rs: the single-instance lock. The file system and `flock` are the
-- interface `Anchor`; `K` is their state, and a process is known by its PID.
pub mod Exclusive
use wattwarden.Base.{ℕ, Bool, true, false, Option, List, [], ◌∷◌, ◌==◌, if◌then◌else◌}
use wattwarden.Core.Error.{io, config, ok, err, Done}

pub record Anchor (K : Type 0) : Type 0 where
  -- Whose guard is locked at the moment, as the kernel sees it.
  pub holder : K → Option ℕ
  -- `open_anchor`: whether the file could be opened, or created.
  pub open_anchor : K → K × Bool
  -- `try_lock` on a file that the process has just opened.
  pub try_lock : ℕ → K → K × Bool
  -- The guard of a process is dropped.
  pub unlock : ℕ → K → K
  pub set_len : K → K × Bool
  pub write_pid : ℕ → K → K

module _ {K : Type 0} (a : Anchor K) where
  -- `held` is whether the manager has a guard. A guard that is not kept is dropped.
  truncated : ℕ → Bool → K × Bool → K × Bool × Done
  truncated p held (k, true) = (a.write_pid p k, true, ok tt)
  truncated p held (k, false) = (a.unlock p k, held, err io)

  locked : ℕ → Bool → K × Bool → K × Bool × Done
  unfolding truncated
  locked p held (k, true) = truncated p held (a.set_len k)
  locked p held (k, false) = (k, held, err config)

  opened : ℕ → Bool → K × Bool → K × Bool × Done
  unfolding locked
  opened p held (k, true) = locked p held (a.try_lock p k)
  opened p held (k, false) = (k, held, err io)

  -- The kernel, and whether the manager has a guard, afterwards.
  unfoldable pub acquire : ℕ → Bool → K → K × Bool × Done
  unfolding opened
  acquire p held k = opened p held (a.open_anchor k)

  unfoldable pub release : ℕ → Bool → K → K
  release p held k = if held then a.unlock p k else k

  probed : ℕ → K × Bool → K × Bool
  probed p (k, true) = (a.unlock p k, false)
  probed p (k, false) = (k, true)

  probe : ℕ → K × Bool → K × Bool
  unfolding probed
  probe p (k, true) = probed p (a.try_lock p k)
  probe p (k, false) = (k, false)

  unfoldable pub is_running : ℕ → K → K × Bool
  unfolding probe
  is_running p k = probe p (a.open_anchor k)

-- What the processes of a machine do with the lock, in the order in which the kernel serves them. A
-- process that dies loses its guard, however it dies.
pub data Event : Type 0 where
  acquires releases probes dies : ℕ → Event

pub record System (K : Type 0) : Type 0 where
  pub kernel : K
  pub held : ℕ → Bool

abbrev pub set_held : ℕ → Bool → (ℕ → Bool) → ℕ → Bool
set_held p h held q = if q == p then h else held q

module _ {K : Type 0} (a : Anchor K) where
  step : Event → System K → System K
  step (acquires p) s =
      let (k, h, r) = acquire a p (s.held p) s.kernel in
      record { kernel = k; held = set_held p h s.held }
  step (releases p) s = record {
    kernel = release a p (s.held p) s.kernel;
    held = set_held p false s.held;
  }
  step (probes p) s = record s { kernel = (is_running a p s.kernel).0 }
  step (dies p) s = record {
    kernel = release a p (s.held p) s.kernel;
    held = set_held p false s.held;
  }

  unfoldable pub run : List Event → System K → System K
  unfolding step
  run [] s = s
  run (e ∷ es) s = run es (step e s)
