-- ===== src/Escalation/Silent.antt =====
-- An escalation that must not ask.
use wattwarden.Base.{
  Text, text, Bool, false, List, [], ◌∷◌, ◌≡◌, refl, pos, negsuc, Bool-cases, inl, inr,
}
use wattwarden.Escalation.{
  Status, not_started, killed, code, Processes, with_pkexec, with_sudo, after_silent,
  rerun_elevated,
}

-- The same machine with another terminal.
abbrev pub with_terminal :
    {M : Type 0} → (List Text → M → M × Status) → (M → Bool) → Processes M → Processes M
with_terminal run terminal p = record p { run_here = run; is_terminal = terminal }

module _ {M : Type 0} (p : Processes M) (run : List Text → M → M × Status)
    (terminal : M → Bool) where
  after_silent-with_terminal :
      (argv : List Text) (r : M × Status)
      → after_silent (with_terminal run terminal p) argv false r ≡ after_silent p argv false r
  unfolding after_silent with_sudo with_pkexec
  after_silent-with_terminal argv (m, not_started) = refl
  after_silent-with_terminal argv (m, killed) = refl
  after_silent-with_terminal argv (m, code (pos c)) = refl
  after_silent-with_terminal argv (m, code (negsuc c)) = refl

  -- An escalation that is not interactive comes to the same whatever the terminal is and whatever a
  -- program that is given the terminal would do: it runs programs with their streams detached only.
  pub rerun_elevated_silent :
      (argv : List Text) (m : M)
      → rerun_elevated (with_terminal run terminal p) argv false m ≡ rerun_elevated p argv false m
  unfolding rerun_elevated with_pkexec
  rerun_elevated_silent [] m = refl
  rerun_elevated_silent (program ∷ args) m = elim (Bool-cases (p.has_program (text "sudo") m)) [
    | inl there ↦ rw there (
        after_silent-with_terminal (program ∷ args)
          (p.run_quiet (text "sudo" ∷ text "-n" ∷ program ∷ args) m))
    | inr missing ↦ rw missing refl
  ]
