-- ===== src/Tests/Lock.antt =====
-- The lock on a machine whose kernel knows only who holds it.
use wattwarden.Base.{ℕ, ◌≡◌, refl, Bool, true, false, Option, none, some, [], ◌∷◌}
use wattwarden.Core.Error.{ok}
use wattwarden.Daemon.Pid.{Anchor, acquire, release, acquires, probes, dies, run}
use wattwarden.Daemon.Pid.Exclusive.{IsFlock, run-exclusive, acquire-release}

abbrev taken : Option ℕ → ℕ → Option ℕ × Bool
taken none p = (some p, true)
taken (some q) p = (some q, false)

abbrev anchor : Anchor (Option ℕ)
anchor = record {
  holder = λ k. k;
  open_anchor = λ k. (k, true);
  try_lock = λ p k. taken k p;
  unlock = λ p k. none;
  set_len = λ k. (k, true);
  write_pid = λ p k. k;
}

anchor-IsFlock : IsFlock anchor
anchor-IsFlock = record {
  open_keeps = λ k. refl;
  grants = granted_free;
  granted = granted_only;
  refused = refused_only;
  unlocks = λ p k e. refl;
  set_len_keeps = λ k. refl;
  write_keeps = λ p k. refl;
}
  where
    granted_free : (p : ℕ) (k : Option ℕ) → k ≡ none → (taken k p).1 ≡ true
    granted_free p none e = refl
    granted_free p (some q) e = absurd cc

    granted_only :
        (p : ℕ) (k : Option ℕ) → (taken k p).1 ≡ true → (k ≡ none) × ((taken k p).0 ≡ some p)
    granted_only p none e = (refl, refl)
    granted_only p (some q) e = absurd cc

    refused_only : (p : ℕ) (k : Option ℕ) → (taken k p).1 ≡ false → (taken k p).0 ≡ k
    refused_only p none e = absurd cc
    refused_only p (some q) e = refl

-- The process that has the guard after the last event.
abbrev second : ℕ
second = 8

run-exclusive_example : second ≡ second
unfolding run acquire release
run-exclusive_example =
    run-exclusive anchor anchor-IsFlock
      (acquires 7 ∷ acquires 8 ∷ probes 9 ∷ dies 7 ∷ acquires 8 ∷ []) none 8 8 refl refl

acquire-release_example :
    ((acquire anchor 8 false (release anchor 7 true (some 7))).1 ≡ true)
    × ((acquire anchor 8 false (release anchor 7 true (some 7))).2 ≡ ok tt)
unfolding release
acquire-release_example = acquire-release anchor anchor-IsFlock 7 8 (some 7) refl refl (λ l. refl)
