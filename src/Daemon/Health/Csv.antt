-- ===== src/Daemon/Health/Csv.antt =====
-- crates/wattwarden-daemon/src/daemon.rs: the line of the health log.
use wattwarden.Base.{
  ℕ, Text, text, Bool, true, false, Option, none, some, List, [], ◌∷◌, ◌++◌, ◌≡◌, refl, ap, ◌∙◌,
  sym, arith, any, Bool-cases, inl, inr, All, All-append, All-mono, ◌==◌, append_assoc, append-nil,
  split, split_at, to_string, to_string-digits, is_digit,
}
use wattwarden.Core.Float.{Float}
use wattwarden.Core.BatteryHealth.{BatteryHealth, health_pct}

-- `or_na(v.map(f))`
abbrev or_na : {A : Type 0} → (A → Text) → Option A → Text
or_na show none = text "na"
or_na show (some a) = show a

-- `to_string` of a Boolean
abbrev word_of : Bool → Text
word_of true = text "true"
word_of false = text "false"

unfoldable pub format_health_csv : {F : Type 0} → Float F → Text → BatteryHealth F → ℕ → Bool → Text
format_health_csv float ts h capacity charging =
    ts
    ++ (text ",health="
        ++ (or_na float.display (health_pct float h)
            ++ (text ",full="
                ++ (or_na to_string h.full
                    ++ (text ",design="
                        ++ (or_na to_string h.design
                            ++ (text ",cycles="
                                ++ (or_na to_string h.cycle_count
                                    ++ (text ",capacity="
                                        ++ (to_string capacity
                                            ++ (text ",charging="
                                                ++ (word_of charging
                                                    ++ (text ",temp="
                                                        ++ or_na float.one_decimal
                                                            h.temp_c)))))))))))))

-- A text without a comma.
abbrev pub IsField : Text → Type 0
IsField s = All (λ c. (c == b',') ≡ false) s

-- The fields with commas between them.
abbrev joined : Text → List Text → Text
joined s [] = s
joined s (t ∷ ts) = s ++ (b',' ∷ joined t ts)

grown :
    (part s : Text) (c : ℕ) (ts : List Text)
    → ((part ++ (c ∷ [])) ++ s) ∷ ts ≡ (part ++ (c ∷ s)) ∷ ts
grown part s c ts = ap (λ r. r ∷ ts) (append_assoc part (c ∷ []) s)

split_at-field : (part s : Text) → IsField s → split_at b',' part s ≡ (part ++ s) ∷ []
unfolding split_at
split_at-field part [] h = ap (λ r. r ∷ []) (sym (append-nil part))
split_at-field part (c ∷ s) h =
    rw (h.0) (split_at-field (part ++ (c ∷ [])) s h.1 ∙ grown part s c [])

split_at-next :
    (part s t : Text)
    → IsField s
    → split_at b',' part (s ++ (b',' ∷ t)) ≡ (part ++ s) ∷ split_at b',' [] t
unfolding split_at
split_at-next part [] t h = ap (λ r. r ∷ split_at b',' [] t) (sym (append-nil part))
split_at-next part (c ∷ s) t h =
    rw (h.0) (split_at-next (part ++ (c ∷ [])) s t h.1 ∙ grown part s c (split_at b',' [] t))

split-joined :
    (s : Text) (ts : List Text) → IsField s → All IsField ts → split b',' (joined s ts) ≡ s ∷ ts
unfolding split
split-joined s [] h hs = split_at-field [] s h
split-joined s (t ∷ ts) h hs =
    split_at-next [] s (joined t ts) h ∙ ap (◌∷◌ s) (split-joined t ts hs.0 hs.1)

no_comma : (c : ℕ) → is_digit c ≡ true → (c == b',') ≡ false
no_comma c h = ground (arith, h)

pub to_string-IsField : (n : ℕ) → IsField (to_string n)
to_string-IsField n =
    All-mono (λ c. is_digit c ≡ true) (λ c. (c == b',') ≡ false) no_comma (to_string n)
      (to_string-digits n)

or_na-IsField :
    {A : Type 0} (show : A → Text) (o : Option A)
    → ((a : A) → IsField (show a))
    → IsField (or_na show o)
or_na-IsField show none h = (refl, (refl, tt))
or_na-IsField show (some a) h = h a

counted : (o : Option ℕ) → IsField (or_na to_string o)
counted o = or_na-IsField to_string o to_string-IsField

word_of-IsField : (b : Bool) → IsField (word_of b)
word_of-IsField true = (refl, (refl, (refl, (refl, tt))))
word_of-IsField false = (refl, (refl, (refl, (refl, (refl, tt)))))

pub IsField-of : (s : Text) → any (λ c. c == b',') s ≡ false → IsField s
IsField-of [] h = tt
IsField-of (c ∷ s) h = elim (Bool-cases (c == b',')) [
  | inl comma ↦ absurd (ground (arith, h, comma))
  | inr other ↦ (other, IsField-of s (ground (arith, h, other)))
]

labelled : (label s : Text) → any (λ c. c == b',') label ≡ false → IsField s → IsField (label ++ s)
labelled label s h k = All-append (λ c. (c == b',') ≡ false) label s (IsField-of label h) k

module _ {F : Type 0} (float : Float F) where
  -- What the line holds, field by field.
  abbrev pub fields : BatteryHealth F → ℕ → Bool → List Text
  fields h capacity charging =
      (text "health=" ++ or_na float.display (health_pct float h))
      ∷ (text "full=" ++ or_na to_string h.full)
      ∷ (text "design=" ++ or_na to_string h.design)
      ∷ (text "cycles=" ++ or_na to_string h.cycle_count)
      ∷ (text "capacity=" ++ to_string capacity)
      ∷ (text "charging=" ++ word_of charging)
      ∷ (text "temp=" ++ or_na float.one_decimal h.temp_c)
      ∷ []

  -- Where neither the time nor a printed number of the floating point arithmetic has a comma, the
  -- line of the health log, split at its commas, is the time and the seven fields in their order,
  -- whichever figures the battery reports.
  pub split-format_health_csv :
      (ts : Text) (h : BatteryHealth F) (capacity : ℕ) (charging : Bool)
      → IsField ts
      → ((x : F) → IsField (float.display x))
      → ((x : F) → IsField (float.one_decimal x))
      → split b',' (format_health_csv float ts h capacity charging)
        ≡ ts ∷ fields h capacity charging
  unfolding format_health_csv
  split-format_health_csv ts h capacity charging clean shown rounded =
      split-joined ts (fields h capacity charging) clean (
        labelled (text "health=") (or_na float.display (health_pct float h)) refl
            (or_na-IsField float.display (health_pct float h) shown),
        (
          labelled (text "full=") (or_na to_string h.full) refl (counted h.full),
          (
            labelled (text "design=") (or_na to_string h.design) refl (counted h.design),
            (
              labelled (text "cycles=") (or_na to_string h.cycle_count) refl
                  (counted h.cycle_count),
              (
                labelled (text "capacity=") (to_string capacity) refl (to_string-IsField capacity),
                (
                  labelled (text "charging=") (word_of charging) refl (word_of-IsField charging),
                  (
                    labelled (text "temp=") (or_na float.one_decimal h.temp_c) refl
                        (or_na-IsField float.one_decimal h.temp_c rounded),
                    tt,
                  ),
                ),
              ),
            ),
          ),
        ),
      )
