-- ===== src/Cli/Commands/Limit.antt =====
-- `charge-limit` with a number, as root.
use wattwarden.Base.{
  ℕ, ◌≤◌, ◌<◌, Text, text, text_eq, text_eq→eq, true, false, Option, some, List, [], ◌∷◌, ◌++◌, ◌≡◌,
  ◌↔◌, refl, sym, ap, ◌∙◌, inl, inr, arith, pos, to_string, parse_unsigned,
  parse_unsigned-to_string, Bool-cases,
}
use wattwarden.Core.Float.{Float}
use wattwarden.Cli.Runtime.{done, failed, Tried, CliRuntime, finish_with}
use wattwarden.Cli.Commands.{
  within, parse_within, elevated, ensure_privileged, set_limit, charge_limit_command,
}

off_unparsed : (n : ℕ) → parse_unsigned 256 (text "off") ≡ some n → ⊥
unfolding parse_unsigned
off_unparsed n e = cc

-- No number is spelled `off`.
to_string-off : (n : ℕ) → n < 256 → text_eq (to_string n) (text "off") ≡ false
to_string-off n h = elim (Bool-cases (text_eq (to_string n) (text "off"))) [
  | inl same ↦ absurd (
      off_unparsed n (
        ap (parse_unsigned 256) (sym (text_eq→eq (to_string n) (text "off") same))
        ∙ parse_unsigned-to_string 256 n h))
  | inr other ↦ other
]

within_inside :
    (lo hi n : ℕ) (o : Option ℕ) → lo ≤ n → n ≤ hi → o ≡ some n → within lo hi o ≡ some n
within_inside lo hi n o l h e = rw e (ground arith)

-- How a call that may fail ends.
pub finish_with-zero :
    {S : Type 0} (prefix : Text) (lines : List Text) (r : S × Tried)
    → ((finish_with prefix lines r).1 ≡ pos 0) ↔ (r.1 ≡ done tt)
unfolding finish_with
finish_with-zero prefix lines (s, done u) = (λ e. refl, λ e. refl)
finish_with-zero prefix lines (s, failed m) = (λ e. ground arith, λ e. absurd (cc))

module _ {F S : Type 0} (float : Float F) (rt : CliRuntime F S) where
  -- With a number in range the command is the runtime's call.
  pub charge_limit_command-to_string :
      (n : ℕ) (s : S)
      → 55 ≤ n
      → n ≤ 100
      → rt.is_root s ≡ true
      → charge_limit_command float rt (some (to_string n)) s
        ≡ finish_with
            (text "Error setting charge limit: ")
            ((text "Charge limit set to: " ++ (to_string n ++ text "%")) ∷ [])
            (rt.set_charge_limit (some n) s)
  unfolding charge_limit_command set_limit ensure_privileged elevated parse_within
  charge_limit_command-to_string n s lo hi root =
      let small : n < 256 = omega arith in
      let parsed =
        within_inside 55 100 n (parse_unsigned 256 (to_string n)) lo hi
          (parse_unsigned-to_string 256 n small) in
      rw (to_string-off n small, parsed, root) refl
