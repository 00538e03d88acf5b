-- ===== src/Locale/Examples.antt =====
-- Locale names.
use flutter_embedder_wayland.Base.{◌≡◌, refl, none, some, arith}
use flutter_embedder_wayland.Base.Text.{codes}
use flutter_embedder_wayland.Locale.{Locale, parse_locale, c_str, split_last}
use flutter_embedder_wayland.Locale.RoundTrip.{print_locale, print-parse_locale, parse-print_locale}

abbrev szl : Locale
szl = record {
  language_code = some (codes "szl");
  country_code = some (codes "PL");
  script_code = some (codes "utf8");
  variant_code = none;
}

parse_szl : parse_locale (codes "szl_PL.utf8") ≡ szl
unfolding parse_locale c_str split_last
parse_szl = refl

parse-print_locale_example : parse_locale (print_locale szl) ≡ szl
parse-print_locale_example =
    parse-print_locale b's' (codes "zl") (some (codes "PL")) (some (codes "utf8")) none
      (ground arith) (ground arith) (ground arith) tt

print-parse_locale_example :
    print_locale (parse_locale (codes "a.b_c@d@e")) ≡ c_str (codes "a.b_c@d@e")
print-parse_locale_example = print-parse_locale (codes "a.b_c@d@e") (λ e. cc)
