-- ===== src/Base/Strings.antt =====
-- Text as the list of its code points: what `str::trim`, `split_whitespace`, `contains`,
-- `starts_with`, `strip_prefix`, `parse` and `to_string` of Rust do with it.
use Prim.Native.Nat.{ℕ, ◌+◌, ◌-◌}
use Prim.Native.Char.{code}
use Prim.Native.String.{String}
use mathlib.Core.Path.{◌≡◌, refl}
use mathlib.Core.Bool.{Bool, true, false, ◌&&◌, ◌||◌}
use mathlib.Core.List.{List, [], ◌∷◌, ◌++◌, reverse}
use mathlib.Core.Option.{Option, none, some}
use native.Mathlib.Omega.{arith}
use wattwarden.Base.Tests.{leb, ◌==◌, if◌then◌else◌}

abbrev pub Text : Type 0
Text = List ℕ

-- A literal of the source.
abbrev pub text : String → Text
text String.[] = []
text (String.◌∷◌ c s) = code c ∷ text s

abbrev pub text_eq : Text → Text → Bool
text_eq [] [] = true
text_eq [] (d ∷ t) = false
text_eq (c ∷ s) [] = false
text_eq (c ∷ s) (d ∷ t) = (c == d) && text_eq s t

pub text_eq→eq : (s t : Text) → text_eq s t ≡ true → s ≡ t
text_eq→eq [] [] h = refl
text_eq→eq [] (d ∷ t) h = ground arith
text_eq→eq (c ∷ s) [] h = ground arith
text_eq→eq (c ∷ s) (d ∷ t) h = ground (arith, text_eq→eq s t)

pub text_eq_self : (s : Text) → text_eq s s ≡ true
text_eq_self [] = refl
text_eq_self (c ∷ s) = ground (arith, text_eq_self s)

abbrev pub is_empty : Text → Bool
is_empty [] = true
is_empty (c ∷ s) = false

-- `char::is_whitespace`: the code points with the Unicode property White_Space.
unfoldable pub is_whitespace : ℕ → Bool
is_whitespace c =
    (leb 9 c && leb c 13)
    || (c == 32)
    || (c == 0x85)
    || (c == 0xa0)
    || (c == 0x1680)
    || (leb 0x2000 c && leb c 0x200a)
    || (c == 0x2028)
    || (c == 0x2029)
    || (c == 0x202f)
    || (c == 0x205f)
    || (c == 0x3000)

-- `trim_start_matches(p)`
unfoldable pub drop_while : (ℕ → Bool) → Text → Text
drop_while p [] = []
drop_while p (c ∷ s) = let rest = drop_while p s in if p c then rest else (c ∷ s)

-- The characters that `drop_while` drops.
unfoldable pub take_while : (ℕ → Bool) → Text → Text
take_while p [] = []
take_while p (c ∷ s) = let rest = take_while p s in if p c then c ∷ rest else []

-- `trim_matches(p)`
unfoldable pub trim_matches : (ℕ → Bool) → Text → Text
unfolding drop_while
trim_matches p s = reverse (drop_while p (reverse (drop_while p s)))

unfoldable pub trim : Text → Text
unfolding trim_matches is_whitespace
trim = trim_matches is_whitespace

-- The word that ends before the next white space is put in front of the words after it.
abbrev pub push_word : Text → List Text → List Text
push_word [] ws = ws
push_word (c ∷ w) ws = (c ∷ w) ∷ ws

-- `split_whitespace`; the first argument is the word read so far.
unfoldable pub split_from : Text → Text → List Text
unfolding is_whitespace
split_from w [] = push_word w []
split_from w (c ∷ s) =
    let next = split_from [] s in
    let more = split_from (w ++ (c ∷ [])) s in if is_whitespace c then push_word w next else more

unfoldable pub split_whitespace : Text → List Text
unfolding split_from
split_whitespace = split_from []

-- `strip_prefix`
unfoldable pub strip_prefix : Text → Text → Option Text
strip_prefix s [] = some s
strip_prefix [] (d ∷ p) = none
strip_prefix (c ∷ s) (d ∷ p) = let rest = strip_prefix s p in if c == d then rest else none

unfoldable pub starts_with : Text → Text → Bool
starts_with s [] = true
starts_with [] (d ∷ p) = false
starts_with (c ∷ s) (d ∷ p) = (c == d) && starts_with s p

unfoldable pub ends_with : Text → Text → Bool
unfolding starts_with
ends_with s p = starts_with (reverse s) (reverse p)

unfoldable pub contains : Text → Text → Bool
unfolding starts_with
contains [] p = starts_with [] p
contains (c ∷ s) p = starts_with (c ∷ s) p || contains s p

-- `to_lowercase`, on ASCII letters; the words that the source compares with are ASCII.
unfoldable pub lower : ℕ → ℕ
lower c = if leb b'A' c && leb c b'Z' then c + 32 else c

unfoldable pub to_lowercase : Text → Text
unfolding lower
to_lowercase [] = []
to_lowercase (c ∷ s) = lower c ∷ to_lowercase s

-- `to_uppercase`, on ASCII letters
unfoldable pub upper : ℕ → ℕ
upper c = if leb b'a' c && leb c b'z' then c - 32 else c

unfoldable pub to_uppercase : Text → Text
unfolding upper
to_uppercase [] = []
to_uppercase (c ∷ s) = upper c ∷ to_uppercase s

-- `split(sep)`; the first argument is the part read so far.
unfoldable pub split_at : ℕ → Text → Text → List Text
split_at sep part [] = part ∷ []
split_at sep part (c ∷ s) =
    let next = split_at sep [] s in
    let more = split_at sep (part ++ (c ∷ [])) s in if c == sep then part ∷ next else more

unfoldable pub split : ℕ → Text → List Text
unfolding split_at
split sep = split_at sep []

-- `trim_end_matches(p)`
unfoldable pub trim_end_matches : (ℕ → Bool) → Text → Text
unfolding drop_while
trim_end_matches p s = reverse (drop_while p (reverse s))
