-- ===== src/Cpu/Preference/Governors.antt =====
-- Only governors that the hardware advertises are chosen.
use wattwarden.Base.{
  ◌≡◌, refl, ◌⊎◌, inl, inr, Text, text_eq, Bool, true, ◌||◌, Option, some, List, [], ◌∷◌, any,
  find_first, if◌then◌else◌, Bool-cases, some-eq, arith, sym, subst,
}
use wattwarden.Sysfs.{World}
use wattwarden.Cpu.Preference.{is_nil, available_governors, fallback_governors, resolve_governor}
use wattwarden.Cpu.Preference.Advertised.{lists, Lists}

find_first-holds :
    (f : Text → Bool) (xs : List Text) (p : Text) → find_first f xs ≡ some p → f p ≡ true
find_first-holds f [] p e = cc
find_first-holds f (x ∷ xs) p e = ground (arith, find_first-holds f xs p)

governor : List Text → Text → Option Text
governor available gov =
    if is_nil available || any (λ a. text_eq a gov) available
    then some gov
    else find_first (λ fallback. any (λ a. text_eq a fallback) available) fallback_governors

governor-cases :
    (first : Text) (others : List Text) (gov p : Text)
    → governor (first ∷ others) gov ≡ some p
    → (Lists (first ∷ others) gov × (p ≡ gov))
      ⊎ (find_first (lists (first ∷ others)) fallback_governors ≡ some p)
unfolding governor is_nil
governor-cases first others gov p e = elim (Bool-cases (lists (first ∷ others) gov)) [
  | inl listed ↦ inl (listed, some-eq p gov (sym (rw listed at e)))
  | inr missing ↦ inr (rw missing at e)
]

resolve_governor-governor :
    (w : World) (gov : Text) → resolve_governor w gov ≡ governor (available_governors w) gov
unfolding resolve_governor governor
resolve_governor-governor w gov = refl

-- Where the hardware advertises governors, the one that `resolve_governor` chooses is among them.
pub resolve_governor-Lists :
    (w : World) (gov p first : Text) (others : List Text)
    → available_governors w ≡ first ∷ others
    → resolve_governor w gov ≡ some p
    → Lists (available_governors w) p
resolve_governor-Lists w gov p first others e r =
    rw e (elim (governor-cases first others gov p (rw (resolve_governor-governor, e) at r)) [
      | inl (listed, same) ↦ subst (Lists (first ∷ others)) (sym same) listed
      | inr found ↦ find_first-holds (lists (first ∷ others)) fallback_governors p found
    ])
