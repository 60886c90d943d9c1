-- ===== src/Daemon/Pid/Exclusive.antt =====
-- At most one daemon runs, and a dead one is in nobody's way.
use wattwarden.Base.{
  ℕ, ◌≡◌, ◌≢◌, refl, sym, ap, ◌∙◌, ◌⊎◌, inl, inr, Bool, true, false, Option, none, some, some-eq,
  List, [], ◌∷◌, ◌==◌, ==_iff, Bool-cases,
}
use wattwarden.Core.Error.{ok, Done}
use wattwarden.Daemon.Pid.{
  Anchor, truncated, locked, opened, acquire, release, probed, probe, is_running, Event, acquires,
  releases, probes, dies, System, set_held, step, run,
}

-- What the kernel documents of an exclusive, non-blocking `flock`.
pub record IsFlock {K : Type 0} (a : Anchor K) : Type 0 where
  pub open_keeps : (k : K) → a.holder (a.open_anchor k).0 ≡ a.holder k
  pub grants : (p : ℕ) (k : K) → a.holder k ≡ none → (a.try_lock p k).1 ≡ true
  pub granted :
      (p : ℕ) (k : K)
      → (a.try_lock p k).1 ≡ true
      → (a.holder k ≡ none) × (a.holder (a.try_lock p k).0 ≡ some p)
  pub refused :
      (p : ℕ) (k : K) → (a.try_lock p k).1 ≡ false → a.holder (a.try_lock p k).0 ≡ a.holder k
  pub unlocks : (p : ℕ) (k : K) → a.holder k ≡ some p → a.holder (a.unlock p k) ≡ none
  pub set_len_keeps : (k : K) → a.holder (a.set_len k).0 ≡ a.holder k
  pub write_keeps : (p : ℕ) (k : K) → a.holder (a.write_pid p k) ≡ a.holder k

-- Every guard that a manager keeps is the one that the kernel has locked.
abbrev Owns : {K : Type 0} → Anchor K → System K → Type 0
Owns a s = (p : ℕ) → s.held p ≡ true → a.holder s.kernel ≡ some p

module _ {K : Type 0} (a : Anchor K) (flock : IsFlock a) where
  -- How the lock stands after a call of `acquire` by `p`, from `before`.
  Acquired : ℕ → Bool → Option ℕ → K × Bool × Done → Type 0
  Acquired p held before x =
      (before ≡ none) × (a.holder x.0 ≡ some p)
      ⊎ (before ≡ none) × (a.holder x.0 ≡ none) × (x.1 ≡ held)
      ⊎ (a.holder x.0 ≡ before) × (x.1 ≡ held)

  truncated-Acquired :
      (p : ℕ) (held : Bool) (x : K × Bool)
      → a.holder x.0 ≡ some p
      → Acquired p held none (truncated a p held x)
  unfolding truncated Acquired
  truncated-Acquired p held (k, true) h = inl (refl, flock.write_keeps p k ∙ h)
  truncated-Acquired p held (k, false) h = inr (inl (refl, flock.unlocks p k h, refl))

  locked-Acquired :
      (p : ℕ) (held : Bool) (k : K) (x : K × Bool)
      → a.try_lock p k ≡ x
      → Acquired p held (a.holder k) (locked a p held x)
  unfolding locked Acquired
  locked-Acquired p held k (k', true) e =
      let (free, mine) = flock.granted p k (ap (λ y. y.1) e) in
      let mine' = flock.set_len_keeps k' ∙ ap (λ y. a.holder y.0) (sym e) ∙ mine in
      rw free (truncated-Acquired p held (a.set_len k') mine')
  locked-Acquired p held k (k', false) e =
      inr (inr (ap (λ y. a.holder y.0) (sym e) ∙ flock.refused p k (ap (λ y. y.1) e), refl))

  opened-Acquired :
      (p : ℕ) (held : Bool) (before : Option ℕ) (x : K × Bool)
      → a.holder x.0 ≡ before
      → Acquired p held before (opened a p held x)
  unfolding opened Acquired
  opened-Acquired p held before (k, true) e =
      rw (← e) (locked-Acquired p held k (a.try_lock p k) refl)
  opened-Acquired p held before (k, false) e = inr (inr (e, refl))

  acquire-Acquired :
      (p : ℕ) (held : Bool) (k : K) → Acquired p held (a.holder k) (acquire a p held k)
  unfolding acquire
  acquire-Acquired p held k =
      opened-Acquired p held (a.holder k) (a.open_anchor k) (flock.open_keeps k)

  -- A probe leaves the lock as it is.
  probed-holder :
      (p : ℕ) (k : K) (x : K × Bool) → a.try_lock p k ≡ x → a.holder (probed a p x).0 ≡ a.holder k
  unfolding probed
  probed-holder p k (k', true) e =
      let (free, mine) = flock.granted p k (ap (λ y. y.1) e) in
      flock.unlocks p k' (ap (λ y. a.holder y.0) (sym e) ∙ mine) ∙ sym free
  probed-holder p k (k', false) e =
      ap (λ y. a.holder y.0) (sym e) ∙ flock.refused p k (ap (λ y. y.1) e)

  probe-holder : (p : ℕ) (x : K × Bool) → a.holder (probe a p x).0 ≡ a.holder x.0
  unfolding probe
  probe-holder p (k, true) = probed-holder p k (a.try_lock p k) refl
  probe-holder p (k, false) = refl

  is_running-holder : (p : ℕ) (k : K) → a.holder (is_running a p k).0 ≡ a.holder k
  unfolding is_running
  is_running-holder p k = probe-holder p (a.open_anchor k) ∙ flock.open_keeps k

  set_held-true :
      (p q : ℕ) (h : Bool) (held : ℕ → Bool)
      → set_held p h held q ≡ true
      → (q ≡ p) × (h ≡ true) ⊎ (q ≢ p) × (held q ≡ true)
  set_held-true p q h held e = elim (Bool-cases (q == p)) [
    | inl same ↦ inl ((==_iff q p).0 same, rw same at e)
    | inr other ↦ inr (λ same. absurd (cc (other, (==_iff q p).1 same)), rw other at e)
  ]

  owner-eq : (p q : ℕ) (o : Option ℕ) → o ≡ some p → o ≡ some q → p ≡ q
  owner-eq p q o e e' = some-eq p q (sym e ∙ e')

  acquires-Owns :
      (p : ℕ) (s : System K) (x : K × Bool × Done)
      → Owns a s
      → Acquired p (s.held p) (a.holder s.kernel) x
      → (q : ℕ) → set_held p x.1 s.held q ≡ true
      → a.holder x.0 ≡ some q
  unfolding Acquired
  acquires-Owns p s x owns (inl (free, mine)) q e = elim (set_held-true p q x.1 s.held e) [
    | inl (same, h) ↦ mine ∙ ap some (sym same)
    | inr (other, h) ↦ absurd (cc (owns q h, free))
  ]
  acquires-Owns p s x owns (inr (inl (free, gone, kept))) q e =
      elim (set_held-true p q x.1 s.held e) [
        | inl (same, h) ↦ absurd (cc (owns p (sym kept ∙ h), free))
        | inr (other, h) ↦ absurd (cc (owns q h, free))
      ]
  acquires-Owns p s x owns (inr (inr (still, kept))) q e = elim (set_held-true p q x.1 s.held e) [
    | inl (same, h) ↦ still ∙ owns p (sym kept ∙ h) ∙ ap some (sym same)
    | inr (other, h) ↦ still ∙ owns q h
  ]

  release-Owns :
      (p : ℕ) (s : System K) (h : Bool)
      → Owns a s
      → s.held p ≡ h
      → (q : ℕ) → set_held p false s.held q ≡ true
      → a.holder (release a p h s.kernel) ≡ some q
  unfolding release
  release-Owns p s true owns mine q e = elim (set_held-true p q false s.held e) [
    | inl (same, never) ↦ absurd cc
    | inr (other, theirs) ↦
        absurd (other (owner-eq q p (a.holder s.kernel) (owns q theirs) (owns p mine)))
  ]
  release-Owns p s false owns mine q e = elim (set_held-true p q false s.held e) [
    | inl (same, never) ↦ absurd cc
    | inr (other, theirs) ↦ owns q theirs
  ]

  step-Owns : (e : Event) (s : System K) → Owns a s → Owns a (step a e s)
  unfolding step
  step-Owns (acquires p) s owns q e =
      acquires-Owns p s (acquire a p (s.held p) s.kernel) owns
        (acquire-Acquired p (s.held p) s.kernel) q e
  step-Owns (releases p) s owns q e = release-Owns p s (s.held p) owns refl q e
  step-Owns (probes p) s owns q e = is_running-holder p s.kernel ∙ owns q e
  step-Owns (dies p) s owns q e = release-Owns p s (s.held p) owns refl q e

  run-Owns : (es : List Event) (s : System K) → Owns a s → Owns a (run a es s)
  unfolding run
  run-Owns [] s owns = owns
  run-Owns (e ∷ es) s owns = run-Owns es (step a e s) (step-Owns e s owns)

  -- Whatever the processes do, in whatever order, from a moment at which none holds the lock: two
  -- managers that both have a guard afterwards are the same. The kernel is assumed to do what it
  -- documents of `flock`.
  pub run-exclusive :
      (es : List Event) (k : K) (p q : ℕ)
      → (run a es (record { kernel = k; held = λ r. false })).held p ≡ true
      → (run a es (record { kernel = k; held = λ r. false })).held q ≡ true
      → p ≡ q
  run-exclusive es k p q mine theirs =
      let start : System K = record { kernel = k; held = λ r. false } in
      let owns = run-Owns es start (λ r never. absurd cc) in
      owner-eq p q (a.holder (run a es start).kernel) (owns p mine) (owns q theirs)

  locked_free :
      (p : ℕ) (held : Bool) (x : K × Bool)
      → x.1 ≡ true
      → ((k : K) → (a.set_len k).1 ≡ true)
      → ((locked a p held x).1 ≡ true) × ((locked a p held x).2 ≡ ok tt)
  unfolding locked
  locked_free p held (k, true) e fits = truncated_fits (a.set_len k) (fits k)
    where
      truncated_fits :
          (y : K × Bool)
          → y.1 ≡ true
          → ((truncated a p held y).1 ≡ true) × ((truncated a p held y).2 ≡ ok tt)
      truncated_fits (k, true) e = (refl, refl)
      truncated_fits (k, false) e = absurd cc
  locked_free p held (k, false) e fits = absurd cc

  opened_free :
      (p : ℕ) (held : Bool) (x : K × Bool)
      → x.1 ≡ true
      → a.holder x.0 ≡ none
      → ((k : K) → (a.set_len k).1 ≡ true)
      → ((opened a p held x).1 ≡ true) × ((opened a p held x).2 ≡ ok tt)
  unfolding opened
  opened_free p held (k, true) e free fits =
      locked_free p held (a.try_lock p k) (flock.grants p k free) fits
  opened_free p held (k, false) e free fits = absurd cc

  -- A daemon that died while it held the lock does not stand in the way of the next one: where the
  -- file can be opened and cut to length 0, `acquire` succeeds, and the manager has its guard.
  pub acquire-release :
      (p q : ℕ) (k : K)
      → a.holder k ≡ some p
      → (a.open_anchor (release a p true k)).1 ≡ true
      → ((l : K) → (a.set_len l).1 ≡ true)
      → ((acquire a q false (release a p true k)).1 ≡ true)
        × ((acquire a q false (release a p true k)).2 ≡ ok tt)
  unfolding acquire release
  acquire-release p q k mine opens fits =
      opened_free q false (a.open_anchor (a.unlock p k)) opens
        (flock.open_keeps (a.unlock p k) ∙ flock.unlocks p k mine) fits
