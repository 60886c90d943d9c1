-- ===== src/Macos/Parse/Remaining.antt =====
-- The loop that looks for the remaining time ends, and what it finds stands in the text.
use wattwarden.Base.{
  ℕ, zero, suc, ◌≤◌, ◌<◌, Text, text, Bool, true, not, ◌&&◌, Option, none, some, [], ◌∷◌, ◌++◌, ◌≡◌,
  ◌≢◌, ◌⊎◌, refl, sym, ap, subst, ◌∙◌, arith, length, inl, inr, Bool-cases, if◌then◌else◌, is_digit,
  is_empty, take_while, drop_while, starts_with, ◌==◌, append_assoc, All, ==_iff,
}
use wattwarden.Macos.Parse.{
  minutes_round, hours_round, scan_round, Scan, found, not_found, out_of_fuel, or_later, scan,
  time_of, mac_time_remaining,
}

length-drop_while : (p : ℕ → Bool) (s : Text) → length (drop_while p s) ≤ length s
unfolding drop_while
length-drop_while p [] = omega arith
length-drop_while p (c ∷ s) = ground (arith, length-drop_while p s)

pub take_while-drop_while : (p : ℕ → Bool) (s : Text) → take_while p s ++ drop_while p s ≡ s
unfolding take_while drop_while
take_while-drop_while p [] = refl
take_while-drop_while p (c ∷ s) = elim (Bool-cases (p c)) [
  | inl same ↦ rw same (ap (◌∷◌ c) (take_while-drop_while p s))
  | inr other ↦ rw other refl
]

minutes_round-shorter : (hours s : Text) → length (minutes_round hours s).0 ≤ length s
unfolding minutes_round
minutes_round-shorter hours s = let h = length-drop_while is_digit s in ground (arith, h)

hours_round-shorter : (hours s : Text) → length (hours_round hours s).0 ≤ length s
unfolding hours_round
hours_round-shorter hours [] = omega arith
hours_round-shorter hours (c ∷ s) = let h = minutes_round-shorter hours s in ground (arith, h)

scan_round-shorter : (c : ℕ) (s : Text) → length (scan_round c s).0 ≤ length s
unfolding scan_round
scan_round-shorter c s =
    let h = length-drop_while is_digit s in
    let k = hours_round-shorter (c ∷ take_while is_digit s) (drop_while is_digit s) in
    ground (arith, h, k)

or_later-ends :
    (o : Option Text) (later : Scan) → later ≢ out_of_fuel → or_later o later ≢ out_of_fuel
or_later-ends (some t) later h = ground arith
or_later-ends none later h = h

scan-ends : (fuel : ℕ) (s : Text) → length s < fuel → scan fuel s ≢ out_of_fuel
unfolding scan
scan-ends zero s h = absurd (omega (arith, h))
scan-ends (suc fuel) [] h = ground arith
scan-ends (suc fuel) (c ∷ s) h =
    let k = scan_round-shorter c s in
    or_later-ends (scan_round c s).1 (scan fuel (scan_round c s).0)
      (scan-ends fuel (scan_round c s).0 (omega (arith, h, k)))

take_while-All : (p : ℕ → Bool) (s : Text) → All (λ c. p c ≡ true) (take_while p s)
unfolding take_while
take_while-All p [] = tt
take_while-All p (c ∷ s) = elim (Bool-cases (p c)) [
  | inl same ↦ rw same (same, take_while-All p s)
  | inr other ↦ rw other tt
]

starts_with-rest : (s p : Text) → starts_with s p ≡ true → (rest : Text) × (s ≡ p ++ rest)
unfolding starts_with
starts_with-rest s [] h = (s, refl)
starts_with-rest [] (d ∷ p) h = ground arith
starts_with-rest (c ∷ s) (d ∷ p) h =
    let e : c ≡ d = ground (arith, h) in
    let (rest, k) = starts_with-rest s p (ground (arith, h)) in (rest, rw (e, k) refl)

-- Hours and minutes, of a digit at least each.
pub IsTime : Text → Type 0
IsTime t =
    (hours minutes : Text) × (t ≡ hours ++ (b':' ∷ minutes))
    × (1 ≤ length hours)
    × (1 ≤ length minutes)
    × All (λ c. is_digit c ≡ true) hours
    × All (λ c. is_digit c ≡ true) minutes

-- The time `t` stands in the text, before the word.
pub IsToken : Text → Text → Type 0
IsToken s t = (before after : Text) × (s ≡ before ++ (t ++ (text " remaining" ++ after))) × IsTime t

-- What a round leaves of the text, and what it has found there.
IsRound : Text → Text × Option Text → Type 0
IsRound s (rest, none) = (before : Text) × (s ≡ before ++ rest)
IsRound s (rest, some t) = IsToken s t

rejoined :
    (hours minutes rest s : Text) (c : ℕ)
    → minutes ++ rest ≡ s
    → hours ++ (c ∷ s) ≡ (hours ++ (c ∷ minutes)) ++ rest
rejoined hours minutes rest s c e =
    ap (λ r. hours ++ (c ∷ r)) (sym e) ∙ sym (append_assoc hours (c ∷ minutes) rest)

non_empty-length : (s : Text) → not (is_empty s) ≡ true → 1 ≤ length s
non_empty-length [] h = ground arith
non_empty-length (c ∷ s) h = omega arith

minutes_round-IsRound :
    (hours s : Text)
    → 1 ≤ length hours
    → All (λ c. is_digit c ≡ true) hours
    → IsRound (hours ++ (b':' ∷ s)) (minutes_round hours s)
unfolding minutes_round IsRound IsToken IsTime
minutes_round-IsRound hours s long digits =
    let minutes = take_while is_digit s in
    let rest = drop_while is_digit s in
    let whole = rejoined hours minutes rest s b':' (take_while-drop_while is_digit s) in
    elim (Bool-cases (not (is_empty minutes) && starts_with rest (text " remaining"))) [
      | inl hit ↦
          let (after, e) = starts_with-rest rest (text " remaining") (ground (arith, hit)) in
          rw hit (
            [],
            after,
            whole ∙ ap (λ r. (hours ++ (b':' ∷ minutes)) ++ r) e,
            (
              hours,
              minutes,
              refl,
              long,
              non_empty-length minutes (ground (arith, hit)),
              digits,
              take_while-All is_digit s,
            ),
          )
      | inr miss ↦ rw miss (hours ++ (b':' ∷ minutes), whole)
    ]

hours_round-IsRound :
    (hours s : Text)
    → 1 ≤ length hours
    → All (λ c. is_digit c ≡ true) hours
    → IsRound (hours ++ s) (hours_round hours s)
unfolding hours_round IsRound
hours_round-IsRound hours [] long digits = (hours, refl)
hours_round-IsRound hours (c ∷ s) long digits = elim (Bool-cases (c == b':')) [
  | inl colon ↦
      let e : c ≡ b':' = (==_iff c b':').0 colon in
      rw (colon, e) (minutes_round-IsRound hours s long digits)
  | inr other ↦ rw other (hours, refl)
]

scan_round-IsRound : (c : ℕ) (s : Text) → IsRound (c ∷ s) (scan_round c s)
unfolding scan_round
scan_round-IsRound c s = elim (Bool-cases (is_digit c)) [
  | inl digit ↦
      let more = take_while is_digit s in
      let rest = drop_while is_digit s in
      rw digit (
        subst (λ r. IsRound (c ∷ r) (hours_round (c ∷ more) rest))
          (take_while-drop_while is_digit s)
          (hours_round-IsRound (c ∷ more) rest (omega arith) (digit, take_while-All is_digit s)))
  | inr other ↦ rw other (unfold IsRound in (c ∷ [], refl))
]

-- The text behind the first part of another is a part of it.
IsToken-later : (before rest s t : Text) → s ≡ before ++ rest → IsToken rest t → IsToken s t
unfolding IsToken
IsToken-later before rest s t e (b, after, k, time) =
    (before ++ b, after, e ∙ ap (λ r. before ++ r) k ∙ sym (append_assoc before b _), time)

IsSound : Text → Scan → Type 0
IsSound s (found t) = IsToken s t
IsSound s not_found = Unit
IsSound s out_of_fuel = ⊥

or_later-IsSound :
    (s : Text) (round : Text × Option Text) (later : Scan)
    → IsRound s round
    → IsSound round.0 later
    → IsSound s (or_later round.1 later)
unfolding IsRound IsSound
or_later-IsSound s (rest, some t) later here h = here
or_later-IsSound s (rest, none) (found t) (before, e) h = IsToken-later before rest s t e h
or_later-IsSound s (rest, none) not_found here h = tt
or_later-IsSound s (rest, none) out_of_fuel here h = h

scan-IsSound : (fuel : ℕ) (s : Text) → length s < fuel → IsSound s (scan fuel s)
unfolding scan
scan-IsSound zero s h = absurd (omega (arith, h))
scan-IsSound (suc fuel) [] h = unfold IsSound in tt
scan-IsSound (suc fuel) (c ∷ s) h =
    let k = scan_round-shorter c s in
    or_later-IsSound (c ∷ s) (scan_round c s) (scan fuel (scan_round c s).0)
      (scan_round-IsRound c s) (scan-IsSound fuel (scan_round c s).0 (omega (arith, h, k)))

-- What is shown of the remaining time: a token of the text, or one of the two words.
pub IsRemaining : Text → Bool → Text → Type 0
IsRemaining s charging t =
    IsToken s t ⊎ (t ≡ (if charging then text "Charging" else text "Calculating..."))

time_of-IsRemaining :
    (s : Text) (charging : Bool) (o : Scan)
    → IsSound s o
    → IsRemaining s charging (time_of o charging)
unfolding IsSound IsRemaining
time_of-IsRemaining s charging (found t) h = inl h
time_of-IsRemaining s charging not_found h = inr refl
time_of-IsRemaining s charging out_of_fuel h = elim h [ ]

-- The loop over the output of `pmset` ends within one round for each byte, and what is then shown
-- is hours and minutes that stand before the word `remaining` in the output, or the word for a
-- battery that charges or whose time is not known.
pub mac_time_remaining_ends :
    (pmset_batt : Text) (charging : Bool)
    → (scan (suc (length pmset_batt)) pmset_batt ≢ out_of_fuel)
      × IsRemaining pmset_batt charging (mac_time_remaining pmset_batt charging)
unfolding mac_time_remaining
mac_time_remaining_ends s charging = (
  scan-ends (suc (length s)) s (omega arith),
  time_of-IsRemaining s charging (scan (suc (length s)) s)
      (scan-IsSound (suc (length s)) s (omega arith)),
)
