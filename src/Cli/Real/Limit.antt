-- ===== src/Cli/Real/Limit.antt =====
-- The charge limit from the command line to the hardware.
use wattwarden.Base.{
  ℕ, ◌≤◌, Text, text, true, some, [], ◌∷◌, ◌++◌, ◌≡◌, ◌↔◌, refl, sym, ap, ◌∙◌, inl, inr, arith,
  clamp_inside, pos, to_string, Bool-cases, subst,
}
use wattwarden.Core.Float.{Float}
use wattwarden.Core.Error.{Done, ok, err}
use wattwarden.Core.Config.{Config}
use wattwarden.Sysfs.{World, Os}
use wattwarden.Backend.{with_root}
use wattwarden.Threshold.Nodes.{nodes}
use wattwarden.Threshold.Set.{supports_threshold, set_charge_threshold}
use wattwarden.Threshold.Set.Sticks.{
  TookValue, set_charge_threshold-TookValue, supports_threshold-ok,
}
use wattwarden.Cli.Runtime.{done, failed, Tried}
use wattwarden.Cli.Commands.Limit.{finish_with-zero, charge_limit_command-to_string}
use wattwarden.Cli.Dispatch.{Surroundings, command_of, run}
use wattwarden.Cli.Real.{System, tried, applied, apply_ceiling, set_charge_limit, real_runtime}

module _ {F H : Type 0} (float : Float F) (sys : System H) (os : Os) where
  tried-done : (r : Done) → (tried float sys os r ≡ done tt) ↔ (r ≡ ok tt)
  unfolding tried
  tried-done (ok u) = (λ e. refl, λ e. refl)
  tried-done (err x) = (λ e. absurd (cc), λ e. absurd (cc))

  applied-done :
      (h : H) (r : World × Done) → ((applied float sys os h r).1 ≡ done tt) ↔ (r.1 ≡ ok tt)
  unfolding applied
  applied-done h (w, r) = tried-done r

  apply_ceiling-done :
      (n : ℕ) (w : World) (r : H × Tried)
      → ((apply_ceiling float sys os (some n) w r).1 ≡ done tt)
        ↔ ((r.1 ≡ done tt) × ((set_charge_threshold os (with_root w).threshold n w).1 ≡ ok tt))
  unfolding apply_ceiling
  apply_ceiling-done n w (h, failed m) = (λ e. absurd (cc), λ e. absurd (cc))
  apply_ceiling-done n w (h, done u) =
      let t = (with_root w).threshold in
      elim (Bool-cases (supports_threshold t w)) [
        | inl there ↦ rw there (
            let both = applied-done h (set_charge_threshold os t n w) in
            (λ e. (refl, both.0 e), λ e. both.1 e.1))
        | inr missing ↦
            rw missing
              (λ e. absurd (cc), λ e. let s = supports_threshold-ok os t n w e.1 in absurd (cc))
      ]

  -- The configuration with the limit.
  abbrev pub limited : ℕ → H → Config
  limited n h = record (sys.load h) { battery_charge_limit = some n }

  set_charge_limit-done :
      (n : ℕ) (w : World) (h : H)
      → ((set_charge_limit float sys os (some n) (w, h)).1 ≡ done tt) ↔ (
          ((sys.save (limited n h) h).1 ≡ done tt)
          × ((set_charge_threshold os (with_root w).threshold n w).1 ≡ ok tt))
  unfolding set_charge_limit
  set_charge_limit-done n w h = apply_ceiling-done n w (sys.save (limited n h) h)

  takes_value :
      (n : ℕ) (w : World)
      → 55 ≤ n
      → n ≤ 100
      → ((set_charge_threshold os (with_root w).threshold n w).1 ≡ ok tt)
        ↔ TookValue os n (nodes (with_root w).threshold w) w
  takes_value n w lo hi =
      subst
        (λ v.
          ((set_charge_threshold os (with_root w).threshold n w).1 ≡ ok tt)
          ↔ TookValue os v (nodes (with_root w).threshold w) w)
        (clamp_inside n 20 100 (omega arith) hi)
        (set_charge_threshold-TookValue os (with_root w).threshold n w)

  -- As root, `wattwarden charge-limit <n>` with 55 to 100 exits with 0 exactly when the configuration
  -- with the limit was saved, and one of the machine's threshold nodes, at its turn, took the value
  -- and the hardware then reports it.
  pub run_charge_limit :
      (env : Surroundings) (exe : Text) (n : ℕ) (w : World) (h : H)
      → 55 ≤ n
      → n ≤ 100
      → sys.is_root h ≡ true
      → ((run float
            (real_runtime float sys os)
            env
            (exe ∷ text "charge-limit" ∷ to_string n ∷ [])
            (w, h)).1
          ≡ pos 0)
        ↔ (((sys.save (limited n h) h).1 ≡ done tt)
            × TookValue os n (nodes (with_root w).threshold w) w)
  unfolding run command_of
  run_charge_limit env exe n w h lo hi root =
      let rt = real_runtime float sys os in
      let e = ap (λ r. r.1) (charge_limit_command-to_string float rt n (w, h) lo hi root) in
      let zero =
        finish_with-zero (text "Error setting charge limit: ")
          ((text "Charge limit set to: " ++ (to_string n ++ text "%")) ∷ [])
          (set_charge_limit float sys os (some n) (w, h)) in
      let made = set_charge_limit-done n w h in
      let took = takes_value n w lo hi in
      (
        λ z. let m = made.0 (zero.0 (sym e ∙ z)) in (m.0, took.0 m.1),
        λ m. e ∙ zero.1 (made.1 (m.0, took.1 m.1)),
      )
