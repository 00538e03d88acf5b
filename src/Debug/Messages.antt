-- ===== src/Debug/Messages.antt =====
-- Messages are printed whole.
use flutter_embedder_wayland.Base.{
  ℕ, ◌+◌, ◌-◌, ◌≤◌, ◌≡◌, refl, ◌∙◌, ap, [], ◌∷◌, ◌++◌, some, none, arith, ltb, leb, if◌then◌else◌,
  length, take-eq_of_le, Bool-cases, inl, inr, ltb→lt,
}
use flutter_embedder_wayland.Base.Text.{Bytes}
use flutter_embedder_wayland.Locale.{c_str}
use flutter_embedder_wayland.Debug.{priority2prefix, stored, is_shown, vdbg, dbg}

c_str-append_nul : (s : Bytes) → c_str (s ++ 0 ∷ []) ≡ c_str s
unfolding c_str
c_str-append_nul [] = refl
c_str-append_nul (x ∷ s) = ground (arith, c_str-append_nul s)

-- A buffer with room for the text and its NUL holds all of it.
c_str-stored :
    (size : ℕ) (text : Bytes) → length text ≤ size - 1 → c_str (stored size text) ≡ c_str text
c_str-stored size text h =
    ap (λ s. c_str (s ++ 0 ∷ [])) (take-eq_of_le (size - 1) text h) ∙ c_str-append_nul text

vdbg_whole :
    (priority : ℕ) (text : Bytes)
    → vdbg priority (some text) ≡ priority2prefix priority ++ c_str text
unfolding vdbg
vdbg_whole priority text = elim (Bool-cases (ltb (length text) 256)) [
  | inl fits ↦ rw fits (
      ap (λ s. priority2prefix priority ++ s)
        (c_str-stored 256 text (omega (arith, ltb→lt (length text) 256 fits))))
  | inr long ↦
      rw long (
        ap (λ s. priority2prefix priority ++ s) (c_str-stored (length text + 1) text (omega arith)))
]

-- A message is printed exactly if its priority is at most the level, and then with the prefix of its
-- priority and whole, however long it is (up to a NUL in it). One that cannot be rendered is not
-- printed.
pub dbg_lem :
    (debug_level priority : ℕ) (text : Bytes)
    → (dbg debug_level priority (some text)
        ≡ (if leb priority debug_level then priority2prefix priority ++ c_str text else []))
      × (dbg debug_level priority none ≡ [])
unfolding dbg is_shown
dbg_lem debug_level priority text =
    (ground (arith, vdbg_whole priority text), unfold vdbg in ground arith)
