-- ===== src/Debug/Levels.antt =====
-- Abbreviations of the names of levels.
use flutter_embedder_wayland.Base.{ℕ, ◌≡◌, refl, ◌∙◌, true, false, List, [], ◌∷◌, ◌++◌, arith, All}
use flutter_embedder_wayland.Base.Text.{Bytes}
use flutter_embedder_wayland.Debug.{starts_with, contains, syslog2level, log_info}

starts_with-append : (text after : Bytes) → starts_with text (text ++ after) ≡ true
unfolding starts_with
starts_with-append [] after = refl
starts_with-append (c ∷ text) after = ground (arith, starts_with-append text after)

contains-starts_with : (s text : Bytes) → starts_with text s ≡ true → contains s text ≡ true
unfolding contains
contains-starts_with [] text h = h
contains-starts_with (x ∷ s) text h = ground arith

-- A name holds each of its parts.
contains-append : (before text after : Bytes) → contains (before ++ (text ++ after)) text ≡ true
unfolding contains
contains-append [] text after =
    contains-starts_with (text ++ after) text (starts_with-append text after)
contains-append (x ∷ before) text after = ground (arith, contains-append before text after)

-- None of the names holds the text.
abbrev pub Lacks : Bytes → List (Bytes × ℕ) → Type 0
Lacks text = All (λ row. contains row.0 text ≡ false)

syslog2level_skip :
    (front back : List (Bytes × ℕ)) (text : Bytes)
    → Lacks text front
    → syslog2level (front ++ back) text ≡ syslog2level back text
unfolding syslog2level
syslog2level_skip [] back text h = refl
syslog2level_skip (row ∷ front) back text h = ground (arith, syslog2level_skip front back text h.1)

syslog2level-none :
    (rows : List (Bytes × ℕ)) (text : Bytes) → Lacks text rows → syslog2level rows text ≡ log_info
unfolding syslog2level
syslog2level-none [] text h = refl
syslog2level-none (row ∷ rows) text h = ground (arith, syslog2level-none rows text h.1)

-- A part of a name gives the level of that name, if no name before it in the table holds the part
-- too. A text that no name holds gives LOG_INFO.
pub syslog2level_lem :
    (front : List (Bytes × ℕ)) (before text after : Bytes) (value : ℕ) (back : List (Bytes × ℕ))
    → Lacks text front
    → (syslog2level (front ++ (before ++ (text ++ after), value) ∷ back) text ≡ value)
      × (syslog2level front text ≡ log_info)
unfolding syslog2level
syslog2level_lem front before text after value back h = (
  syslog2level_skip front _ text h ∙ ground (arith, contains-append before text after),
  syslog2level-none front text h,
)
