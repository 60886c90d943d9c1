-- ===== src/Escalation.antt =====
-- crates/wattwarden-platform/src/privilege.rs: running a command again with privileges. The programs
-- on the path, the terminal and the processes belong to a state `M`, behind an interface.
pub mod Silent
use wattwarden.Base.{
  ℕ, Text, text, Bool, true, false, ◌&&◌, ◌||◌, not, Option, none, some, List, [], ◌∷◌,
  if◌then◌else◌, ℤ, pos, negsuc, ◌==◌,
}

pub data Escalation : Type 0 where
  -- The command ran and exited with this code.
  ran : ℤ → Escalation
  cancelled unavailable : Escalation

-- What a process that was started came to: it could not be started, a signal ended it, or a code.
pub data Status : Type 0 where
  not_started killed : Status
  code : ℤ → Status

pub record Processes (M : Type 0) : Type 0 where
  pub has_program : Text → M → Bool
  pub is_terminal : M → Bool
  -- With the streams detached, and with the terminal's
  pub run_quiet : List Text → M → M × Status
  pub run_here : List Text → M → M × Status

module _ {M : Type 0} where
  -- `pkexec` exits with 126 or 127 when the user dismisses the dialog.
  after_pkexec : M × Status → M × Escalation
  after_pkexec (m, not_started) = (m, unavailable)
  after_pkexec (m, killed) = (m, ran (pos 1))
  after_pkexec (m, code (pos c)) = (m, if (c == 126) || (c == 127) then cancelled else ran (pos c))
  after_pkexec (m, code (negsuc c)) = (m, ran (negsuc c))

module _ {M : Type 0} (p : Processes M) where
  open p use {has_program, is_terminal, run_quiet, run_here}

  -- 3) The graphical agent.
  with_pkexec : List Text → Bool → M → M × Escalation
  unfolding after_pkexec
  with_pkexec argv tried_any m =
      if has_program (text "pkexec") m
      then after_pkexec (run_quiet (text "pkexec" ∷ argv) m)
      else (m, if tried_any then ran (pos 1) else unavailable)

  after_sudo : List Text → M × Status → M × Escalation
  unfolding with_pkexec
  after_sudo argv (m, not_started) = with_pkexec argv true m
  after_sudo argv (m, killed) = (m, ran (pos 1))
  after_sudo argv (m, code c) = (m, ran c)

  -- 2) `sudo` that may ask, where there is a terminal to ask on.
  with_sudo : List Text → Bool → M → M × Escalation
  unfolding after_sudo with_pkexec
  with_sudo argv interactive m =
      if interactive && (has_program (text "sudo") m && is_terminal m)
      then after_sudo argv (run_here (text "sudo" ∷ argv) m)
      else with_pkexec argv true m

  -- A refusal of `sudo -n` exits with 1, and so does a command that failed: both are tried again.
  after_silent : List Text → Bool → M × Status → M × Escalation
  unfolding with_sudo
  after_silent argv interactive (m, not_started) = with_sudo argv interactive m
  after_silent argv interactive (m, killed) = (m, ran (pos 1))
  after_silent argv interactive (m, code (pos c)) =
      if c == 1 then with_sudo argv interactive m else (m, ran (pos c))
  after_silent argv interactive (m, code (negsuc c)) = (m, ran (negsuc c))

  -- 1) `sudo` that never asks.
  unfoldable pub rerun_elevated : List Text → Bool → M → M × Escalation
  unfolding after_silent with_pkexec
  rerun_elevated [] interactive m = (m, unavailable)
  rerun_elevated (program ∷ args) interactive m =
      if has_program (text "sudo") m
      then after_silent (program ∷ args) interactive
          (run_quiet (text "sudo" ∷ text "-n" ∷ program ∷ args) m)
      else with_pkexec (program ∷ args) false m
