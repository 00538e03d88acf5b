-- ===== src/Locale/RoundTrip.antt =====
-- Parsing and printing of locale names undo one another.
use mathlib.Core.List.{append-nil, append_assoc}
use flutter_embedder_wayland.Base.{
  ℕ, ◌≡◌, ◌≢◌, refl, ◌∙◌, Bool, true, false, ◌||◌, [], ◌∷◌, ◌++◌, Option, none, some, arith, ◌==◌,
  All, All-append,
}
use flutter_embedder_wayland.Base.Text.{Bytes}
use flutter_embedder_wayland.Locale.{Locale, c_str, split_last, cut_part, parse_parts, parse_locale}

-- A part with the separator in front of it.
abbrev part : ℕ → Option Bytes → Bytes
part c none = []
part c (some s) = c ∷ s

abbrev pub whole : Option Bytes → Bytes
whole none = []
whole (some s) = s

-- A locale name as setlocale(3) spells it.
unfoldable pub print_locale : Locale → Bytes
print_locale l =
    whole l.language_code
    ++ (part b'_' l.country_code ++ (part b'.' l.script_code ++ part b'@' l.variant_code))

cut_part-append : (c : ℕ) (s : Bytes) → (cut_part c s).0 ++ part c (cut_part c s).1 ≡ s
unfolding split_last
cut_part-append c [] = refl
cut_part-append c (x ∷ s) = ground (arith, cut_part-append c s)

-- The parts of any non-empty text, put together again, are the text (up to its first NUL).
pub print-parse_locale : (s : Bytes) → s ≢ [] → print_locale (parse_locale s) ≡ c_str s
unfolding print_locale parse_locale
print-parse_locale [] h = absurd (h refl)
print-parse_locale (c ∷ s) h =
    let l = c_str (c ∷ s) in
    let l₁ = cut_part b'@' l in
    let l₂ = cut_part b'.' l₁.0 in
    let l₃ = cut_part b'_' l₂.0 in
    rw (← append_assoc, ← append_assoc, cut_part-append b'_' l₂.0, cut_part-append b'.' l₁.0)
      (cut_part-append b'@' l)

abbrev pub Lacks : ℕ → Bytes → Type 0
Lacks c = All (λ x. (x == c) ≡ false)

split_last-Lacks : (c : ℕ) (s : Bytes) → Lacks c s → split_last c s ≡ none
unfolding split_last
split_last-Lacks c [] h = refl
split_last-Lacks c (x ∷ s) h = ground (arith, split_last-Lacks c s h.1)

split_last-append : (c : ℕ) (s t : Bytes) → Lacks c t → split_last c (s ++ c ∷ t) ≡ some (s, t)
unfolding split_last
split_last-append c [] t h = ground (arith, split_last-Lacks c t h)
split_last-append c (x ∷ s) t h = ground (arith, split_last-append c s t h)

-- A byte that no part may hold: the three separators and NUL.
abbrev pub is_special : ℕ → Bool
is_special x = x == b'_' || x == b'.' || x == b'@' || x == 0

abbrev pub IsPlain : Bytes → Type 0
IsPlain = All (λ x. is_special x ≡ false)

abbrev pub PlainPart : Option Bytes → Type 0
PlainPart none = Unit {0}
PlainPart (some s) = IsPlain s

IsPlain-Lacks : (c : ℕ) (s : Bytes) → is_special c ≡ true → IsPlain s → Lacks c s
IsPlain-Lacks c [] h p = tt
IsPlain-Lacks c (x ∷ s) h p = ground (arith, IsPlain-Lacks c s h p.1)

part-Lacks :
    (c d : ℕ) (o : Option Bytes)
    → is_special c ≡ true
    → (d == c) ≡ false
    → PlainPart o
    → Lacks c (part d o)
part-Lacks c d none h e p = tt
part-Lacks c d (some s) h e p = (e, IsPlain-Lacks c s h p)

cut_part-part :
    (c : ℕ) (s : Bytes) (o : Option Bytes)
    → is_special c ≡ true
    → Lacks c s
    → PlainPart o
    → cut_part c (s ++ part c o) ≡ (s, o)
cut_part-part c s none h k p = ground (arith, append-nil s, split_last-Lacks c s k)
cut_part-part c s (some t) h k p = ground (arith, split_last-append c s t (IsPlain-Lacks c t h p))

c_str-Lacks : (s : Bytes) → Lacks 0 s → c_str s ≡ s
unfolding c_str
c_str-Lacks [] h = refl
c_str-Lacks (x ∷ s) h = ground (arith, c_str-Lacks s h.1)

module _ (language : Bytes) (country script variant : Option Bytes) (l : IsPlain language)
    (c : PlainPart country) (s : PlainPart script) (v : PlainPart variant) where
  front : Bytes
  front = language ++ part b'_' country

  front-Lacks : (d : ℕ) → is_special d ≡ true → (b'_' == d) ≡ false → Lacks d front
  unfolding front
  front-Lacks d h e =
      All-append _ language (part b'_' country) (IsPlain-Lacks d language h l)
        (part-Lacks d b'_' country h e c)

  parse_parts-print : parse_parts ((front ++ part b'.' script) ++ part b'@' variant) ≡ record {
    language_code = some language;
    country_code = country;
    script_code = script;
    variant_code = variant;
  }
  unfolding parse_parts front
  parse_parts-print =
      let lacks : Lacks b'@' (front ++ part b'.' script) =
        All-append _ front (part b'.' script) (front-Lacks b'@' refl refl)
          (part-Lacks b'@' b'.' script refl refl s) in
      rw
        (
          cut_part-part b'@' (front ++ part b'.' script) variant refl lacks v,
          cut_part-part b'.' front script refl (front-Lacks b'.' refl refl) s,
          cut_part-part b'_' language country refl (IsPlain-Lacks b'_' language refl l) c,
        )
        refl

  whole_text : Bytes
  whole_text = language ++ (part b'_' country ++ (part b'.' script ++ part b'@' variant))

  whole_text-Lacks : Lacks 0 whole_text
  unfolding whole_text
  whole_text-Lacks =
      All-append _ language (part b'_' country ++ (part b'.' script ++ part b'@' variant))
        (IsPlain-Lacks 0 language refl l)
        (All-append _ (part b'_' country) (part b'.' script ++ part b'@' variant)
          (part-Lacks 0 b'_' country refl refl c)
          (All-append _ (part b'.' script) (part b'@' variant)
            (part-Lacks 0 b'.' script refl refl s) (part-Lacks 0 b'@' variant refl refl v)))

  parse_parts-whole : parse_parts (c_str whole_text) ≡ record {
    language_code = some language;
    country_code = country;
    script_code = script;
    variant_code = variant;
  }
  unfolding whole_text front
  parse_parts-whole =
      rw (c_str-Lacks whole_text whole_text-Lacks, ← append_assoc, ← append_assoc) parse_parts-print

parse_locale_ne : (t : Bytes) → t ≢ [] → parse_locale t ≡ parse_parts (c_str t)
unfolding parse_locale
parse_locale_ne [] h = absurd (h refl)
parse_locale_ne (c ∷ t) h = refl

-- A name whose language is not empty, and whose parts hold none of `_ . @` and no NUL, is parsed
-- into its parts.
pub parse-print_locale :
    (c : ℕ) (language : Bytes) (country script variant : Option Bytes)
    → IsPlain (c ∷ language)
    → PlainPart country
    → PlainPart script
    → PlainPart variant
    → let l : Locale = record {
      language_code = some (c ∷ language);
      country_code = country;
      script_code = script;
      variant_code = variant;
    } in
      parse_locale (print_locale l) ≡ l
unfolding print_locale whole_text
parse-print_locale c language country script variant l p s v =
    parse_locale_ne _ (λ e. cc) ∙ parse_parts-whole (c ∷ language) country script variant l p s v
