-- ===== src/Keyboard/Message.antt =====
-- The message of a key event (`WaylandDisplay::key_handler` in src/wayland_display.cc), and a reader
-- of such messages that shows that they say what the event was.
use flutter_embedder_wayland.Base.{
  ℕ, zero, suc, ◌≡◌, Bool, true, false, [], ◌∷◌, ◌++◌, Option, none, some, arith, ◌==◌,
  if◌then◌else◌,
}
use flutter_embedder_wayland.Base.Chain.{◌>>=◌}
use flutter_embedder_wayland.Base.Text.{Bytes, codes, to_string, read_digits, read_digits-to_string}

-- What the message tells. `unicode` is 0 for a key without a character.
pub record KeyEvent : Type 0 where
  pub pressed : Bool
  pub scan_code : ℕ
  pub key_code : ℕ
  pub modifiers : ℕ
  pub unicode : ℕ

unfoldable pub type_name : Bool → Bytes
type_name pressed = if pressed then codes "\"keydown\"" else codes "\"keyup\""

-- `message`, in the order in which it is put together.
unfoldable pub print_key_event : KeyEvent → Bytes
unfolding type_name
print_key_event e =
    codes "{"
    ++ (codes " \"type\":"
        ++ (type_name e.pressed
            ++ (codes ",\"keymap\":\"linux\",\"scanCode\":"
                ++ (to_string e.scan_code
                    ++ (codes ",\"toolkit\":\"gtk\",\"keyCode\":"
                        ++ (to_string e.key_code
                            ++ (codes ",\"modifiers\":"
                                ++ (to_string e.modifiers
                                    ++ ((if e.unicode == 0
                                          then []
                                          else codes ",\"unicodeScalarValues\":"
                                            ++ to_string e.unicode)
                                        ++ codes "}")))))))))

-- The reader: a fixed text, a number, and either of two texts.
expect : Bytes → Bytes → Option Bytes
expect [] s = some s
expect (c ∷ cs) [] = none
expect (c ∷ cs) (d ∷ s) = if c == d then expect cs s else none

-- Either of two texts: `true` for the first.
either : Bytes → Bytes → Bytes → Option (Bool × Bytes)
either p q s = elim (expect p s) [
  | some r ↦ some (true, r)
  | none ↦ elim (expect q s) [ some r ↦ some (false, r) | none ↦ none ]
]

-- The digits that come next, and what follows them.
number : Bytes → Option (ℕ × Bytes)
number s = some (read_digits 0 s)

read_unicode : Bytes → Option (ℕ × Bytes)
read_unicode s = elim (expect (codes ",\"unicodeScalarValues\":") s) [
  | some r ↦ number r
  | none ↦ some (0, s)
]

unfoldable pub read_key_event : Bytes → Option KeyEvent
unfolding expect either number read_unicode
read_key_event s₀ = do
  s₁ ← expect (codes "{ \"type\":") s₀
  (pressed, s₂) ← either (codes "\"keydown\"") (codes "\"keyup\"") s₁
  s₃ ← expect (codes ",\"keymap\":\"linux\",\"scanCode\":") s₂
  (scan_code, s₄) ← number s₃
  s₅ ← expect (codes ",\"toolkit\":\"gtk\",\"keyCode\":") s₄
  (key_code, s₆) ← number s₅
  s₇ ← expect (codes ",\"modifiers\":") s₆
  (modifiers, s₈) ← number s₇
  (unicode, s₉) ← read_unicode s₈
  _ ← expect (codes "}") s₉
  some (record {
    pressed = pressed;
    scan_code = scan_code;
    key_code = key_code;
    modifiers = modifiers;
    unicode = unicode;
  })

suc-is-zero : (u : ℕ) → (suc u == 0) ≡ false
suc-is-zero u = ground arith

read_key_event-print :
    (p : Bool) (s k m u : ℕ)
    → let e : KeyEvent = record {
      pressed = p;
      scan_code = s;
      key_code = k;
      modifiers = m;
      unicode = u;
    } in
      read_key_event (print_key_event e) ≡ some e
unfolding read_key_event print_key_event read_digits
read_key_event-print true s k m zero = simp read_digits-to_string
read_key_event-print true s k m (suc u) = simp (read_digits-to_string, suc-is-zero)
read_key_event-print false s k m zero = simp read_digits-to_string
read_key_event-print false s k m (suc u) = simp (read_digits-to_string, suc-is-zero)

-- Every key event is read back from its message, so no two events have one message.
pub read_key_event_lem : (e : KeyEvent) → read_key_event (print_key_event e) ≡ some e
read_key_event_lem e = read_key_event-print e.pressed e.scan_code e.key_code e.modifiers e.unicode
