-- ===== src/Base/Decimal.antt =====
-- `to_string` and `parse` of Rust's unsigned and signed integers.
use Prim.Native.Nat.{ℕ, zero, suc, ◌+◌, ◌-◌, ◌*◌, ◌/◌, ◌%◌, ◌^◌, ◌≤◌, ◌<◌}
use mathlib.Core.Path.{◌≡◌, refl, ◌∙◌, ap}
use mathlib.Core.Logic.{◌≢◌, inl, inr}
use mathlib.Core.Bool.{Bool, true, false, ◌&&◌}
use mathlib.Core.List.{[], ◌∷◌, ◌++◌}
use mathlib.Core.Option.{Option, none, some}
use native.Mathlib.Omega.{arith}
use wattwarden.Base.Tests.{ltb, leb, ◌==◌, if◌then◌else◌, Bool-cases}
use wattwarden.Base.Strings.{Text}
use wattwarden.Base.Lists.{All, All-append}
use wattwarden.Base.Int.{ℤ, pos, negsuc, neg_of}

abbrev pub is_digit : ℕ → Bool
is_digit c = leb b'0' c && leb c b'9'

-- The digits of `n`, the last of them behind the others; a number has no more digits than itself
-- plus one, so `suc n` is enough fuel.
print : ℕ → ℕ → Text
print zero n = []
print (suc fuel) n =
    let front = print fuel (n / 10) in
    if ltb n 10 then (b'0' + n) ∷ [] else front ++ ((b'0' + n % 10) ∷ [])

unfoldable pub to_string : ℕ → Text
unfolding print
to_string n = print (suc n) n

-- `to_string` of a signed integer.
unfoldable pub to_string_ℤ : ℤ → Text
to_string_ℤ (pos n) = to_string n
to_string_ℤ (negsuc n) = b'-' ∷ to_string (suc n)

-- The value of the digits read so far, and of those that follow.
parse_digits : ℕ → Text → Option ℕ
parse_digits n [] = some n
parse_digits n (c ∷ s) =
    let rest = parse_digits (n * 10 + (c - b'0')) s in if is_digit c then rest else none

parse_digits1 : Text → Option ℕ
unfolding parse_digits
parse_digits1 [] = none
parse_digits1 (c ∷ s) = parse_digits 0 (c ∷ s)

abbrev fit : ℕ → Option ℕ → Option ℕ
fit limit none = none
fit limit (some n) = if ltb n limit then some n else none

-- `parse::<u64>`, `parse::<u32>` and so on, for numbers below `limit`: digits with an optional plus
-- sign; an empty text, another character or a number that is too large is an error.
unfoldable pub parse_unsigned : ℕ → Text → Option ℕ
unfolding parse_digits1
parse_unsigned limit [] = none
parse_unsigned limit (c ∷ s) =
    if c == b'+' then fit limit (parse_digits1 s) else fit limit (parse_digits1 (c ∷ s))

abbrev positive : Option ℕ → Option ℤ
positive none = none
positive (some n) = if ltb n (2 ^ 63) then some (pos n) else none

abbrev negative : Option ℕ → Option ℤ
negative none = none
negative (some n) = if leb n (2 ^ 63) then some (neg_of n) else none

-- `parse::<i64>`
unfoldable pub parse_i64 : Text → Option ℤ
unfolding parse_digits1
parse_i64 [] = none
parse_i64 (c ∷ s) =
    if c == b'-'
    then negative (parse_digits1 s)
    else if c == b'+'
    then positive (parse_digits1 s)
    else positive (parse_digits1 (c ∷ s))

-- One digit more.
parse_digits-snoc :
    (a d m : ℕ) (s : Text)
    → d < 10
    → parse_digits a s ≡ some m
    → parse_digits a (s ++ ((b'0' + d) ∷ [])) ≡ some (m * 10 + d)
unfolding parse_digits
parse_digits-snoc a d m [] h e = ground arith
parse_digits-snoc a d m (c ∷ s) h e =
    ground (arith, parse_digits-snoc (a * 10 + (c - b'0')) d m s h)

parse_digits-print : (fuel n : ℕ) → n < fuel → parse_digits 0 (print fuel n) ≡ some n
unfolding print
parse_digits-print zero n h = elim h [ ]
parse_digits-print (suc fuel) n h = elim (Bool-cases (ltb n 10)) [
  | inl small ↦ rw small (
      parse_digits-snoc 0 n 0 [] (ground arith) (unfold parse_digits in refl)
      ∙ ap some (omega arith))
  | inr large ↦ rw large (
      parse_digits-snoc 0 (n % 10) (n / 10) (print fuel (n / 10)) (omega arith)
        (parse_digits-print fuel (n / 10) (ground arith))
      ∙ ap some (omega arith))
]

-- A printed number begins with a digit.
print-cons : (fuel n : ℕ) → n < fuel → (c : ℕ) × (s : Text) × (print fuel n ≡ c ∷ s) × (c ≢ b'+')
unfolding print
print-cons zero n h = elim h [ ]
print-cons (suc fuel) n h = elim (Bool-cases (ltb n 10)) [
  | inl small ↦ (b'0' + n, [], rw small, omega arith)
  | inr large ↦
      let (c, s, e, digit) = print-cons fuel (n / 10) (ground arith) in
      (c, s ++ ((b'0' + n % 10) ∷ []), rw (large, e), digit)
]

-- What is printed is read back, by the type that holds it.
pub parse_unsigned-to_string :
    (limit n : ℕ) → n < limit → parse_unsigned limit (to_string n) ≡ some n
unfolding to_string parse_unsigned
parse_unsigned-to_string limit n h =
    let (c, s, e, digit) = print-cons (suc n) n (omega arith) in
    let back = parse_digits-print (suc n) n (omega arith) in ground (arith, e, back)

-- The digits of the small numbers.
pub to_string_one : (n : ℕ) → n < 10 → to_string n ≡ (b'0' + n) ∷ []
unfolding to_string print
to_string_one n h = let small : ltb n 10 ≡ true = ground (arith, h) in rw small refl

pub to_string_two :
    (n : ℕ) → 10 ≤ n → n < 100 → to_string n ≡ (b'0' + n / 10) ∷ (b'0' + n % 10) ∷ []
unfolding to_string print
to_string_two zero l h = absurd (omega (arith, l))
to_string_two (suc k) l h =
    let large : ltb (suc k) 10 ≡ false = ground (arith, l) in
    let small : ltb (suc k / 10) 10 ≡ true = ground (arith, h) in rw (large, small) refl

pub is_digit-of : (d : ℕ) → d < 10 → is_digit (b'0' + d) ≡ true
is_digit-of d h = ground (arith, h)

print-digits : (fuel n : ℕ) → All (λ c. is_digit c ≡ true) (print fuel n)
unfolding print
print-digits zero n = tt
print-digits (suc fuel) n = elim (Bool-cases (ltb n 10)) [
  | inl small ↦ rw small (is_digit-of n (ground (arith, small)), tt)
  | inr large ↦ rw large (
      All-append (λ c. is_digit c ≡ true) (print fuel (n / 10)) ((b'0' + n % 10) ∷ [])
        (print-digits fuel (n / 10)) (is_digit-of (n % 10) (omega arith), tt))
]

-- A printed number consists of digits.
pub to_string-digits : (n : ℕ) → All (λ c. is_digit c ≡ true) (to_string n)
unfolding to_string
to_string-digits n = print-digits (suc n) n
