-- ===== src/Cpu/Preference/Advertised.antt =====
-- Only preferences that the hardware advertises are chosen, and the one that is chosen for another is
-- the closest.
use wattwarden.Base.{
  ℕ, ◌≤◌, ◌≡◌, refl, ◌⊎◌, inl, inr, Text, text_eq, text_eq_self, text_eq→eq, Bool, true, false,
  ◌||◌, Option, none, some, List, [], ◌∷◌, any, filter_map, push_some, leb, if◌then◌else◌,
  Bool-cases, some-eq, All, arith, sym, ap, ◌∙◌, subst,
}
use wattwarden.Sysfs.{World}
use wattwarden.Cpu.Preference.{
  available_epp, rank, ranked, abs_diff, with_distance, min_from, min_by_key, closest, is_nil,
  resolve_epp,
}

-- The text stands in the list.
abbrev pub lists : List Text → Text → Bool
lists xs a = any (λ x. text_eq x a) xs

abbrev pub Lists : List Text → Text → Type 0
Lists xs a = lists xs a ≡ true

-- The result of `min_by_key` is one of the elements, and its key is least.
min_from-All :
    (P : ℕ × Text → Type 0) (best : ℕ × Text) (xs : List (ℕ × Text))
    → P best
    → All P xs
    → P (min_from best xs)
unfolding min_from
min_from-All P best [] h k = h
min_from-All P best (x ∷ xs) h k =
    min_from-All P (if leb best.0 x.0 then best else x) xs (pick (leb best.0 x.0)) k.1
  where
    pick : (b : Bool) → P (if b then best else x)
    pick true = h
    pick false = k.0

pick-below :
    (m : ℕ) (best x : ℕ × Text)
    → m ≤ (if leb best.0 x.0 then best else x).0
    → (m ≤ best.0) × (m ≤ x.0)
pick-below m best x h = ground arith

min_from-below :
    (m : ℕ) (best : ℕ × Text) (xs : List (ℕ × Text))
    → m ≤ (min_from best xs).0
    → (m ≤ best.0) × All (λ x. m ≤ x.0) xs
unfolding min_from
min_from-below m best [] h = (h, tt)
min_from-below m best (x ∷ xs) h =
    let (least, others) = min_from-below m (if leb best.0 x.0 then best else x) xs h in
    let (low, next) = pick-below m best x least in (low, (next, others))

-- What a ranked candidate is: an advertised text with its distance from the target.
abbrev IsCandidate : List Text → ℕ → ℕ × Text → Type 0
IsCandidate available target x =
    Lists available x.1 × ((r : ℕ) × (rank x.1 ≡ some r) × (x.0 ≡ abs_diff r target))

candidate :
    (available : List Text) (target : ℕ) (a : Text) (o : Option ℕ)
    → rank a ≡ o
    → Lists available a
    → (rest : List (ℕ × Text)) → All (IsCandidate available target) rest
    → All (IsCandidate available target) (push_some (with_distance target a o) rest)
candidate available target a none e h rest k = k
candidate available target a (some r) e h rest k = ((h, (r, e, refl)), k)

candidates :
    (available : List Text) (target : ℕ) (xs : List Text)
    → All (Lists available) xs
    → All (IsCandidate available target) (filter_map (ranked target) xs)
unfolding ranked
candidates available target [] h = tt
candidates available target (a ∷ xs) h =
    candidate available target a (rank a) refl h.0 _ (candidates available target xs h.1)

Lists-cons : (x a : Text) (xs : List Text) → Lists xs a → Lists (x ∷ xs) a
Lists-cons x a xs h = ground arith

Lists-self :
    (available xs : List Text)
    → ((a : Text) → Lists xs a → Lists available a)
    → All (Lists available) xs
Lists-self available [] f = tt
Lists-self available (x ∷ xs) f = (
  f x (ground (arith, text_eq_self x)),
  Lists-self available xs (λ a h. f a (Lists-cons x a xs h)),
)

least_here :
    (target m s : ℕ) (x : Text)
    → rank x ≡ some s
    → (rest : List (ℕ × Text)) → All (λ y. m ≤ y.0) (push_some (ranked target x) rest)
    → m ≤ abs_diff s target
unfolding ranked
least_here target m s x e rest k = (rw e at k).0

push_some_rest :
    (m : ℕ) (o : Option (ℕ × Text)) (rest : List (ℕ × Text))
    → All (λ y. m ≤ y.0) (push_some o rest)
    → All (λ y. m ≤ y.0) rest
push_some_rest m none rest k = k
push_some_rest m (some y) rest k = k.1

-- A listed text with a rank is among the ranked candidates, so a least key is at most its distance.
least-le :
    (target m s : ℕ) (a : Text) (xs : List Text)
    → Lists xs a
    → rank a ≡ some s
    → All (λ x. m ≤ x.0) (filter_map (ranked target) xs)
    → m ≤ abs_diff s target
least-le target m s a [] h e k = ground arith
least-le target m s a (x ∷ xs) h e k = elim (Bool-cases (text_eq x a)) [
  | inl same ↦
      least_here target m s x (rw (text_eq→eq x a same) e) (filter_map (ranked target) xs) k
  | inr other ↦ least-le target m s a xs (rw other at h) e (push_some_rest m (ranked target x) _ k)
]

min_by_key-some :
    (P : ℕ × Text → Type 0) (xs : List (ℕ × Text)) (p : Text)
    → min_by_key xs ≡ some p
    → All P xs
    → (k : ℕ) × P (k, p) × All (λ x. k ≤ x.0) xs
unfolding min_by_key
min_by_key-some P [] p e h = cc
min_by_key-some P (x ∷ xs) p e h =
    let best : ℕ × Text = min_from x xs in
    (
      best.0,
      subst (λ q. P (best.0, q)) (some-eq best.1 p e) (min_from-All P x xs h.0 h.1),
      min_from-below best.0 x xs (omega arith),
    )

-- What `closest` finds: an advertised text, and none that is advertised is nearer.
closest-some :
    (available : List Text) (t : ℕ) (p : Text)
    → closest available (some t) ≡ some p
    → (k : ℕ) × IsCandidate available t (k, p)
      × All (λ x. k ≤ x.0) (filter_map (ranked t) available)
unfolding closest
closest-some available t p e =
    min_by_key-some (IsCandidate available t) (filter_map (ranked t) available) p e
      (candidates available t available (Lists-self available available (λ a h. h)))

-- Either the request is advertised and taken as it is, or the closest one is looked for.
resolved : List Text → Text → Option Text
resolved available pref =
    if is_nil available || any (λ a. text_eq a pref) available
    then some pref
    else closest available (rank pref)

resolved-cases :
    (first : Text) (others : List Text) (pref p : Text)
    → resolved (first ∷ others) pref ≡ some p
    → (Lists (first ∷ others) pref × (p ≡ pref)) ⊎ (closest (first ∷ others) (rank pref) ≡ some p)
unfolding resolved is_nil
resolved-cases first others pref p e = ground arith

resolve_epp-resolved :
    (w : World) (pref : Text) → resolve_epp w pref ≡ resolved (available_epp w) pref
unfolding resolve_epp resolved
resolve_epp-resolved w pref = refl

closest-Lists :
    (available : List Text) (o : Option ℕ) (p : Text)
    → closest available o ≡ some p
    → Lists available p
closest-Lists available none p e = unfold closest in cc
closest-Lists available (some t) p e = (closest-some available t p e).1.0

-- Where the hardware advertises preferences, the one that `resolve_epp` chooses is among them.
pub resolve_epp-Lists :
    (w : World) (pref p first : Text) (others : List Text)
    → available_epp w ≡ first ∷ others
    → resolve_epp w pref ≡ some p
    → Lists (available_epp w) p
resolve_epp-Lists w pref p first others e r =
    rw e (elim (resolved-cases first others pref p (rw (resolve_epp-resolved, e) at r)) [
      | inl (listed, same) ↦ subst (Lists (first ∷ others)) (sym same) listed
      | inr found ↦ closest-Lists (first ∷ others) (rank pref) p found
    ])

closest-le :
    (available : List Text) (t r s : ℕ) (p a : Text)
    → closest available (some t) ≡ some p
    → rank p ≡ some r
    → Lists available a
    → rank a ≡ some s
    → abs_diff r t ≤ abs_diff s t
closest-le available t r s p a e hp listed ha =
    let (k, (_, (r', e', d)), least) = closest-some available t p e in
    let same : r' ≡ r = some-eq r' r (sym e' ∙ hp) in
    rw (← same, ← d) (least-le t k s a available listed ha least)

-- No advertised preference is nearer to the request than the chosen one: of the ranks in the
-- performance order, its distance from the rank of the request is least.
pub resolve_epp-closest :
    (w : World) (pref p a first : Text) (others : List Text) (t r s : ℕ)
    → available_epp w ≡ first ∷ others
    → resolve_epp w pref ≡ some p
    → rank pref ≡ some t
    → rank p ≡ some r
    → Lists (available_epp w) a
    → rank a ≡ some s
    → abs_diff r t ≤ abs_diff s t
resolve_epp-closest w pref p a first others t r s e chosen ht hr listed hs =
    elim (resolved-cases first others pref p (rw (resolve_epp-resolved, e) at chosen)) [
      | inl (_, same) ↦ let equal : r ≡ t = some-eq r t (sym hr ∙ ap rank same ∙ ht) in ground arith
      | inr found ↦ closest-le (first ∷ others) t r s p a (rw ht at found) hr (rw e at listed) hs
    ]
