-- ===== src/Base/Text.antt =====
-- C++ strings as lists of bytes, decimal numbers (`std::to_string`, the digits of `atol`).
use Prim.Native.Char.{code}
use Prim.Native.String.{String}
use flutter_embedder_wayland.Base.{
  ℕ, zero, suc, ◌+◌, ◌-◌, ◌*◌, ◌/◌, ◌%◌, ◌<◌, ◌≡◌, refl, ◌∙◌, ap, Bool, true, false, ◌&&◌, List, [],
  ◌∷◌, ◌++◌, arith, ltb, leb, if◌then◌else◌,
}

abbrev pub Bytes : Type 0
Bytes = List ℕ

-- The bytes of an ASCII literal.
abbrev pub codes : String → Bytes
codes String.[] = []
codes (String.◌∷◌ c s) = code c ∷ codes s

abbrev pub is_digit : ℕ → Bool
is_digit c = leb b'0' c && leb c b'9'

-- The digits of `n` in front of `out`. Each round divides by ten, so `n + 1` rounds are enough.
unfoldable pub decimal : ℕ → ℕ → Bytes → Bytes
decimal zero n out = out
decimal (suc f) n out =
    let more = decimal f (n / 10) ((b'0' + n % 10) ∷ out) in
    if ltb n 10 then (b'0' + n) ∷ out else more

-- `std::to_string` of an unsigned number.
unfoldable pub to_string : ℕ → Bytes
unfolding decimal
to_string n = decimal (suc n) n []

-- The value of the leading digits behind the value `acc`, and the rest.
unfoldable pub read_digits : ℕ → Bytes → ℕ × Bytes
read_digits acc [] = (acc, [])
read_digits acc (c ∷ s) = elim (is_digit c) [
  | true ↦ read_digits (acc * 10 + (c - b'0')) s
  | false ↦ (acc, c ∷ s)
]

decimal-append : (f n : ℕ) (out rest : Bytes) → decimal f n out ++ rest ≡ decimal f n (out ++ rest)
unfolding decimal
decimal-append zero n out rest = refl
decimal-append (suc f) n out rest =
    ground (arith, decimal-append f (n / 10) ((b'0' + n % 10) ∷ out) rest)

read_digits-decimal :
    (f n : ℕ) (out : Bytes) → n < f → read_digits 0 (decimal f n out) ≡ read_digits n out
unfolding decimal read_digits
read_digits-decimal zero n out h = absurd (omega arith)
read_digits-decimal (suc f) n out h =
    ground (arith, read_digits-decimal f (n / 10) ((b'0' + n % 10) ∷ out))

-- A number is read back from its decimal form, up to whatever follows.
pub read_digits-to_string :
    (n : ℕ) (rest : Bytes) → read_digits 0 (to_string n ++ rest) ≡ read_digits n rest
unfolding to_string
read_digits-to_string n rest =
    ap (read_digits 0) (decimal-append (suc n) n [] rest)
    ∙ read_digits-decimal (suc n) n rest (omega arith)

to_string_runs : to_string 65307 ≡ codes "65307"
unfolding to_string
to_string_runs = refl
