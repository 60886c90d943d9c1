-- ===== src/Daemon/Runner/Charge.antt =====
-- The charge limit that the daemon keeps in force.
use wattwarden.Base.{
  ℕ, ◌≤◌, ◌≡◌, refl, inl, inr, sym, ap, ◌∙◌, true, not, some, [], ◌∷◌, ==_iff, Bool-cases,
}
use wattwarden.Sysfs.{World, Os}
use wattwarden.Core.Error.{Result, ok, err, Done}
use wattwarden.Core.Config.{Config}
use wattwarden.Core.Traits.{ChargeThreshold}
use wattwarden.Threshold.Nodes.{ThresholdNode, LinuxChargeThreshold, nodes}
use wattwarden.Threshold.Set.{
  linux_threshold, supports_threshold, charge_threshold, set_charge_threshold,
}
use wattwarden.Threshold.Set.Reported.{charge_threshold-set_charge_threshold}
use wattwarden.Daemon.Runner.{Runner, note_result, reports, enforce, enforce_charge_limit}

reports_iff :
    {S : Type 0} (threshold : ChargeThreshold S) (r : Result ℕ) (limit : ℕ)
    → reports threshold r limit ≡ true
    → r ≡ ok limit
unfolding reports
reports_iff threshold (ok cur) limit e = ap ok ((==_iff cur limit).0 e)
reports_iff threshold (err x) limit e = absurd cc

reports_ok :
    {S : Type 0} (threshold : ChargeThreshold S) (limit : ℕ)
    → reports threshold (ok limit) limit ≡ true
unfolding reports
reports_ok threshold limit = (==_iff limit limit).1 refl

module _ {S : Type 0} (threshold : ChargeThreshold S) where
  -- Where the ceiling is already in force nothing is done.
  enforce_settled :
      (limit now : ℕ) (s : S) (r : Runner)
      → threshold.charge_threshold s ≡ ok limit
      → enforce threshold (some limit) now s r ≡ (s, r)
  unfolding enforce
  enforce_settled limit now s r e = elim (Bool-cases (not (threshold.supports_threshold s))) [
    | inl lacking ↦ rw lacking refl
    | inr supported ↦ rw (supported, e, reports_ok threshold limit) refl
  ]

  note_result-state :
      (now : ℕ) (p : S × Done) (r : Runner) → (note_result threshold now p r).0 ≡ p.0
  unfolding note_result
  note_result-state now (s, ok u) r = refl
  note_result-state now (s, err x) r = refl

  -- After a round whose write, if it comes to one, leaves the ceiling in force, the next round does
  -- nothing.
  enforce_settles :
      (limit now later : ℕ) (s s1 : S) (r r1 : Runner)
      → threshold.charge_threshold (threshold.set_charge_threshold limit s).0 ≡ ok limit
      → (enforce threshold (some limit) now s r).0 ≡ s1
      → enforce threshold (some limit) later s1 r1 ≡ (s1, r1)
  unfolding enforce
  enforce_settles limit now later s s1 r r1 stuck done =
      elim (Bool-cases (not (threshold.supports_threshold s))) [
        | inl lacking ↦
            let same : s ≡ s1 = rw lacking at done in
            let lacking' : not (threshold.supports_threshold s1) ≡ true =
              ap (λ v. not (threshold.supports_threshold v)) (sym same) ∙ lacking in
            rw lacking' refl
        | inr supported ↦
            elim (Bool-cases (reports threshold (threshold.charge_threshold s) limit)) [
              | inl there ↦
                  let same : s ≡ s1 = rw (supported, there) at done in
                  enforce_settled limit later s1 r1 (
                    ap threshold.charge_threshold (sym same)
                    ∙ reports_iff threshold (threshold.charge_threshold s) limit there)
              | inr moved ↦
                  let same : (note_result threshold now (threshold.set_charge_threshold limit s)
                        r).0
                      ≡ s1 =
                    rw (supported, moved) at done in
                  enforce_settled limit later s1 r1 (
                    ap threshold.charge_threshold
                      (sym same ∙ note_result-state now (threshold.set_charge_threshold limit s) r)
                    ∙ stuck)
            ]
      ]

-- On a machine whose one threshold node stays in place, and with a limit in 20..=100 that the
-- hardware accepts, the daemon writes the limit at most once: after one round, every later one leaves
-- the machine and the runner as they are.
pub enforce_charge_limit_settles :
    (os : Os) (t : LinuxChargeThreshold) (n : ThresholdNode) (config : Config) (limit now later : ℕ)
    (w w1 : World) (r r1 : Runner)
    → config.battery_charge_limit ≡ some limit
    → 20 ≤ limit
    → limit ≤ 100
    → nodes t w ≡ n ∷ []
    → nodes t (set_charge_threshold os t limit w).0 ≡ n ∷ []
    → (set_charge_threshold os t limit w).1 ≡ ok tt
    → (enforce_charge_limit (linux_threshold os t) config now w r).0 ≡ w1
    → enforce_charge_limit (linux_threshold os t) config later w1 r1 ≡ (w1, r1)
unfolding enforce_charge_limit
enforce_charge_limit_settles os t n config limit now later w w1 r r1 set lo hi before after taken
      done =
    let threshold = linux_threshold os t in
    let w' = (set_charge_threshold os t limit w).0 in
    let written : set_charge_threshold os t limit w ≡ (w', ok tt) = ap (λ d. (w', d)) taken in
    let stuck =
      charge_threshold-set_charge_threshold os t n limit w w' lo hi before after written in
    let done' = ap (λ o. (enforce threshold o now w r).0) (sym set) ∙ done in
    ap (λ o. enforce threshold o later w1 r1) set
    ∙ enforce_settles threshold limit now later w w1 r r1 stuck done'

enforce_shows :
    {S : Type 0} (threshold : ChargeThreshold S) (limit now : ℕ) (s : S) (r : Runner)
    → threshold.supports_threshold s ≡ true
    → threshold.charge_threshold (threshold.set_charge_threshold limit s).0 ≡ ok limit
    → threshold.charge_threshold (enforce threshold (some limit) now s r).0 ≡ ok limit
unfolding enforce
enforce_shows threshold limit now s r supported stuck =
    elim (Bool-cases (reports threshold (threshold.charge_threshold s) limit)) [
      | inl there ↦
          rw (supported, there) (reports_iff threshold (threshold.charge_threshold s) limit there)
      | inr moved ↦
          rw (supported, moved)
            (ap threshold.charge_threshold
                (note_result-state threshold now (threshold.set_charge_threshold limit s) r)
              ∙ stuck)
    ]

has_node :
    (t : LinuxChargeThreshold) (n : ThresholdNode) (w : World)
    → nodes t w ≡ n ∷ []
    → supports_threshold t w ≡ true
unfolding supports_threshold
has_node t n w e = rw e refl

-- A ceiling that something else has moved, or that cannot be read, is set back in the next round: on a
-- machine whose one threshold node stays in place, and with a limit in 20..=100 whose
-- write the hardware accepts, the hardware shows the configured limit after the round, whatever it
-- showed before.
pub enforce_charge_limit_reasserts :
    (os : Os) (t : LinuxChargeThreshold) (n : ThresholdNode) (config : Config) (limit now : ℕ)
    (w : World) (r : Runner)
    → config.battery_charge_limit ≡ some limit
    → 20 ≤ limit
    → limit ≤ 100
    → nodes t w ≡ n ∷ []
    → nodes t (set_charge_threshold os t limit w).0 ≡ n ∷ []
    → (set_charge_threshold os t limit w).1 ≡ ok tt
    → charge_threshold t (enforce_charge_limit (linux_threshold os t) config now w r).0 ≡ ok limit
unfolding enforce_charge_limit
enforce_charge_limit_reasserts os t n config limit now w r set lo hi before after taken =
    let threshold = linux_threshold os t in
    let w' = (set_charge_threshold os t limit w).0 in
    let written : set_charge_threshold os t limit w ≡ (w', ok tt) = ap (λ d. (w', d)) taken in
    let stuck =
      charge_threshold-set_charge_threshold os t n limit w w' lo hi before after written in
    ap (λ o. charge_threshold t (enforce threshold o now w r).0) set
    ∙ enforce_shows threshold limit now w r (has_node t n w before) stuck
