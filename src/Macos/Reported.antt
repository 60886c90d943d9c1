-- ===== src/Macos/Reported.antt =====
-- When setting the charge ceiling through the helper succeeds.
use wattwarden.Base.{
  ℕ, ◌^◌, text, true, Option, none, some, [], ◌∷◌, ◌≡◌, refl, ◌↔◌, arith, clamp, inl, inr,
  Bool-cases, if◌then◌else◌, to_string, parse_unsigned,
}
use wattwarden.Core.Error.{ok}
use wattwarden.Macos.{
  Shell, supports_threshold, charge_threshold, set_charge_threshold, check_readback,
  u8_or_unsupported,
}

module _ {H : Type 0} (sh : Shell H) where
  -- The system after the helper was told the ceiling nearest to the request in 20..=100.
  abbrev pub told : ℕ → H → H
  told t h = sh.run (text "bclm") (text "write" ∷ to_string (clamp t 20 100) ∷ []) h

  check_readback_iff :
      (value : ℕ) (o : Option ℕ)
      → (check_readback sh value (u8_or_unsupported o) ≡ ok tt) ↔ (o ≡ some value)
  check_readback_iff value none = (λ e. ground arith, λ e. ground arith)
  check_readback_iff value (some n) = (λ e. ground arith, λ e. ground arith)

  -- Setting the ceiling succeeds exactly when the helper is installed and reports, after it was told
  -- the request brought into 20..=100, that value. Without the helper nothing is run.
  pub set_charge_threshold-Reported :
      (t : ℕ) (h : H)
      → (((set_charge_threshold sh t h).1 ≡ ok tt) ↔ (
          (supports_threshold sh h ≡ true)
          × (parse_unsigned (2 ^ 8) (sh.ask (text "bclm") (text "read" ∷ []) (told t h))
              ≡ some (clamp t 20 100))))
        × ((set_charge_threshold sh t h).0 ≡ (if supports_threshold sh h then told t h else h))
  unfolding set_charge_threshold charge_threshold
  set_charge_threshold-Reported t h =
      let o = parse_unsigned (2 ^ 8) (sh.ask (text "bclm") (text "read" ∷ []) (told t h)) in
      let both = check_readback_iff (clamp t 20 100) o in
      elim (Bool-cases (supports_threshold sh h)) [
        | inl there ↦ rw there ((λ e. (refl, both.0 e), λ k. both.1 k.1), refl)
        | inr missing ↦
            rw missing ((λ e. absurd (ground (arith, e)), λ k. absurd (ground (arith, k))), refl)
      ]
