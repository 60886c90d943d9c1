-- ===== src/Macos/Parse/Percent.antt =====
-- The percentage that is printed is the one that is read.
use wattwarden.Base.{
  ℕ, ◌+◌, ◌-◌, ◌/◌, ◌%◌, ◌^◌, ◌≤◌, ◌<◌, Text, text, Bool, true, false, [], ◌∷◌, ◌++◌, ◌≡◌, refl, ap,
  ◌∙◌, ◌⊎◌, inl, inr, arith, length, length-append, drop-append, All, All-append, All-mono,
  is_digit, drop, keep, take_while, drop_while, to_string, to_string_one, to_string_two,
  to_string-digits, is_digit-of, parse_unsigned, parse_unsigned-to_string,
}
use wattwarden.Macos.Parse.{not_percent, percent_of, last_digits, mac_battery_percent}

take_while-append :
    (p : ℕ → Bool) (s : Text) (c : ℕ) (t : Text)
    → All (λ d. p d ≡ true) s
    → p c ≡ false
    → (take_while p (s ++ (c ∷ t)) ≡ s) × (drop_while p (s ++ (c ∷ t)) ≡ c ∷ t)
unfolding take_while drop_while
take_while-append p [] c t h e = (rw e refl, rw e refl)
take_while-append p (d ∷ s) c t h e =
    let k = take_while-append p s c t h.1 e in (rw (h.0) (ap (◌∷◌ d) k.0), rw (h.0) k.1)

drop_tail : (s t : Text) (k : ℕ) → length t ≡ k + 3 → drop (length (s ++ t) - 3) (s ++ t) ≡ drop k t
drop_tail s t k e =
    let n = length-append s t in
    let m : length (s ++ t) - 3 ≡ length s + k = omega (arith, e, n) in
    ap (λ i. drop i (s ++ t)) m ∙ drop-append s t k

keep-All : (p : ℕ → Bool) (s : Text) → All (λ c. p c ≡ true) s → keep p s ≡ s
keep-All p [] h = refl
keep-All p (c ∷ s) h = rw (h.0) (ap (◌∷◌ c) (keep-All p s h.1))

-- The digits at the end of a text, behind two bytes that are none.
last_digits-one :
    (before : Text) (a b n : ℕ)
    → is_digit a ≡ false
    → is_digit b ≡ false
    → n < 10
    → last_digits (before ++ (a ∷ b ∷ to_string n)) ≡ to_string n
unfolding last_digits
last_digits-one before a b n ha hb h =
    rw (to_string_one n h, drop_tail before (a ∷ b ∷ (b'0' + n) ∷ []) 0 (omega arith), ha, hb)
      (keep-All is_digit ((b'0' + n) ∷ []) (is_digit-of n h, tt))

last_digits-two :
    (before : Text) (a b n : ℕ)
    → is_digit b ≡ false
    → 10 ≤ n
    → n < 100
    → last_digits (before ++ (a ∷ b ∷ to_string n)) ≡ to_string n
unfolding last_digits
last_digits-two before a b n hb l h =
    let digits : Text = (b'0' + n / 10) ∷ (b'0' + n % 10) ∷ [] in
    rw (to_string_two n l h, drop_tail before (a ∷ b ∷ digits) 1 (omega arith), hb)
      (keep-All is_digit digits
        (is_digit-of (n / 10) (omega (arith, h)), (is_digit-of (n % 10) (omega arith), tt)))

last_digits-hundred :
    (before : Text) (a b : ℕ) → last_digits (before ++ (a ∷ b ∷ text "100")) ≡ text "100"
unfolding last_digits
last_digits-hundred before a b = rw (drop_tail before (a ∷ b ∷ text "100") 2 (omega arith)) refl

to_string_hundred : to_string 100 ≡ text "100"
unfolding to_string
to_string_hundred = refl

small_cases : (n : ℕ) → n ≤ 100 → (n < 10) ⊎ (((10 ≤ n) × (n < 100)) ⊎ (n ≡ 100))
small_cases n h = ground arith

last_digits-printed :
    (before : Text) (a b n : ℕ)
    → is_digit a ≡ false
    → is_digit b ≡ false
    → n ≤ 100
    → last_digits (before ++ (a ∷ b ∷ to_string n)) ≡ to_string n
last_digits-printed before a b n ha hb h = elim (small_cases n h) [
  | inl one ↦ last_digits-one before a b n ha hb one
  | inr (inl two) ↦ last_digits-two before a b n hb two.0 two.1
  | inr (inr full) ↦ rw (full, to_string_hundred) (last_digits-hundred before a b)
]

digit-plain : (c : ℕ) → is_digit c ≡ true → not_percent c ≡ true
digit-plain c h = ground (arith, h)

to_string-plain : (n : ℕ) → All (λ c. not_percent c ≡ true) (to_string n)
to_string-plain n =
    All-mono (λ c. is_digit c ≡ true) (λ c. not_percent c ≡ true) digit-plain (to_string n)
      (to_string-digits n)

percent_of-parsed : (n : ℕ) → n ≤ 100 → percent_of (parse_unsigned (2 ^ 32) (to_string n)) ≡ n
percent_of-parsed n h =
    let e = parse_unsigned-to_string (2 ^ 32) n (omega (arith, h)) in rw e (omega (arith, h))

-- A whole percentage up to 100 that is printed before the first percent sign, behind two bytes that
-- are no digits, is the one that is read.
pub mac_battery_percent-printed :
    (before rest : Text) (a b n : ℕ)
    → All (λ c. not_percent c ≡ true) before
    → not_percent a ≡ true
    → not_percent b ≡ true
    → is_digit a ≡ false
    → is_digit b ≡ false
    → n ≤ 100
    → mac_battery_percent ((before ++ (a ∷ b ∷ to_string n)) ++ (b'%' ∷ rest)) ≡ n
unfolding mac_battery_percent
mac_battery_percent-printed before rest a b n hs pa pb ha hb h =
    let s : Text = before ++ (a ∷ b ∷ to_string n) in
    let plain =
      All-append (λ c. not_percent c ≡ true) before (a ∷ b ∷ to_string n) hs
        (pa, (pb, to_string-plain n)) in
    let parts = take_while-append not_percent s b'%' rest plain refl in
    rw (parts.1, parts.0, last_digits-printed before a b n ha hb h) (percent_of-parsed n h)
