-- ===== src/Locale.antt =====
-- `FlutterParseLocale` of src/utils.cc: the parts of a locale name as in setlocale(3),
-- `language[_territory][.codeset][@modifier]`.
pub mod RoundTrip
mod Examples
use flutter_embedder_wayland.Base.{
  ℕ, Bool, true, false, List, [], ◌∷◌, ◌++◌, Option, none, some, ◌==◌, if◌then◌else◌,
}
use flutter_embedder_wayland.Base.Text.{Bytes}

-- `FlutterLocale`, whose fields are null until they are set.
pub record Locale : Type 0 where
  pub language_code : Option Bytes
  pub country_code : Option Bytes
  pub script_code : Option Bytes
  pub variant_code : Option Bytes

unfoldable pub no_locale : Locale
no_locale = record {
  language_code = none;
  country_code = none;
  script_code = none;
  variant_code = none;
}

-- `strdup(s.c_str())`: the bytes up to the first NUL.
unfoldable pub c_str : Bytes → Bytes
c_str [] = []
c_str (c ∷ s) = if c == 0 then [] else c ∷ c_str s

-- `strrchr`: what stands before and behind the last `c`.
unfoldable pub split_last : ℕ → Bytes → Option (Bytes × Bytes)
split_last c [] = none
split_last c (x ∷ s) = elim (split_last c s) [
  | some (before, behind) ↦ some (x ∷ before, behind)
  | none ↦ if x == c then some ([], s) else none
]

-- One step of the parser: the text with its last part cut off, and that part.
abbrev cut_part : ℕ → Bytes → Bytes × Option Bytes
cut_part c s = elim (split_last c s) [
  | some (before, behind) ↦ (before, some behind)
  | none ↦ (s, none)
]

parse_parts : Bytes → Locale
parse_parts l =
    let (l₁, variant) = cut_part b'@' l in
    let (l₂, script) = cut_part b'.' l₁ in
    let (l₃, country) = cut_part b'_' l₂ in
    record {
      language_code = some l₃;
      country_code = country;
      script_code = script;
      variant_code = variant;
    }

-- `FlutterParseLocale` on a locale without parts.
unfoldable pub parse_locale : Bytes → Locale
unfolding parse_parts
parse_locale [] = no_locale
parse_locale (c ∷ s) = parse_parts (c_str (c ∷ s))
