-- ===== src/Aspm/Advertised.antt =====
-- Only a policy that the kernel offers is written.
use wattwarden.Base.{
  ◌≡◌, refl, sym, subst, ◌⊎◌, inl, inr, Text, text, text_eq, text_eq_self, Bool, true, Option, none,
  some, List, [], ◌∷◌, any, find_first, arith, Bool-cases, some-eq,
}
use wattwarden.Sysfs.{World, Os, Effect, write, aspm_policy, write_best_effort}
use wattwarden.Sysfs.Issues.{Issues, stop, Issues-write}
use wattwarden.Aspm.{
  available_policies, choose, is_nil, resolve_policy, write_policy, set_aspm_policy,
}

abbrev lists : List Text → Text → Bool
lists xs a = any (λ x. text_eq x a) xs

-- A write of an offered policy, or, where the kernel shows no list, of the requested one.
pub data IsPolicyWrite (available : List Text) (policy : Text) : Effect → Type 0 where
  offered :
      (p : Text) → lists available p ≡ true → IsPolicyWrite available policy (write aspm_policy p)
  unlisted : available ≡ [] → IsPolicyWrite available policy (write aspm_policy policy)

find_first-lists :
    (xs : List Text) (d p : Text) → find_first (λ a. text_eq a d) xs ≡ some p → lists xs p ≡ true
find_first-lists [] d p e = cc
find_first-lists (x ∷ xs) d p e = elim (Bool-cases (text_eq x d)) [
  | inl found ↦
      let same : x ≡ p = some-eq x p (rw found at e) in rw (← same) (ground (arith, text_eq_self x))
  | inr other ↦ let rest = find_first-lists xs d p (rw other at e) in ground (arith, rest)
]

choose-lists :
    (available : List Text) (policy p : Text)
    → choose available policy ≡ some p
    → (lists available p ≡ true) ⊎ ((available ≡ []) × (p ≡ policy))
unfolding choose is_nil
choose-lists [] policy p e = inr (refl, sym (some-eq policy p e))
choose-lists (x ∷ xs) policy p e = elim (Bool-cases (lists (x ∷ xs) policy)) [
  | inl listed ↦
      inl (subst (λ q. lists (x ∷ xs) q ≡ true) (some-eq policy p (rw listed at e)) listed)
  | inr missing ↦ inl (find_first-lists (x ∷ xs) (text "default") p (rw missing at e))
]

write-Issues :
    (os : Os) (available : List Text) (policy p : Text) (w : World)
    → (lists available p ≡ true) ⊎ ((available ≡ []) × (p ≡ policy))
    → Issues os (IsPolicyWrite available policy) w (write_best_effort os aspm_policy p w)
write-Issues os available policy p w (inl listed) = Issues-write aspm_policy p (offered p listed)
write-Issues os available policy p w (inr (empty, same)) =
    Issues-write aspm_policy p (
      subst (λ q. IsPolicyWrite available policy (write aspm_policy q)) (sym same) (unlisted empty))

-- `set_aspm_policy` writes a policy that the kernel offers, or nothing; only where the kernel shows no
-- list does it write the request unseen.
pub set_aspm_policy-Issues :
    (os : Os) (policy : Text) (w : World)
    → Issues os (IsPolicyWrite (available_policies w) policy) w (set_aspm_policy os policy w)
unfolding set_aspm_policy
set_aspm_policy-Issues os policy w = chosen (resolve_policy w policy) refl
  where
    chosen :
        (o : Option Text)
        → resolve_policy w policy ≡ o
        → Issues os (IsPolicyWrite (available_policies w) policy) w (write_policy os o w)
    chosen none e = unfold write_policy in stop
    chosen (some p) e =
        unfold write_policy in
        write-Issues os (available_policies w) policy p w
          (choose-lists (available_policies w) policy p (unfold resolve_policy in e))
