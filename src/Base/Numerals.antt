-- ===== src/Base/Numerals.antt =====
-- The numerals that `std::to_string` prints: they are digits, and `atol` reads them back.
use mathlib.Core.List.{append-nil}
use flutter_embedder_wayland.Base.{
  ℕ, zero, suc, ◌+◌, ◌/◌, ◌%◌, ◌^◌, ◌<◌, ◌≡◌, ap, subst, true, [], ◌∷◌, arith, All,
}
use flutter_embedder_wayland.Base.Int.{pos}
use flutter_embedder_wayland.Base.Text.{
  Bytes, is_digit, decimal, to_string, read_digits, read_digits-to_string,
}
use flutter_embedder_wayland.Base.Atol.{atol}

abbrev pub AreDigits : Bytes → Type 0
AreDigits = All (λ c. is_digit c ≡ true)

-- At least one byte, and only digits.
abbrev pub IsNumber : Bytes → Type 0
IsNumber [] = ⊥
IsNumber (c ∷ s) = (is_digit c ≡ true) × AreDigits s

decimal-IsNumber : (f n : ℕ) (out : Bytes) → n < f → AreDigits out → IsNumber (decimal f n out)
unfolding decimal
decimal-IsNumber zero n out h k = absurd (omega arith)
decimal-IsNumber (suc f) n out h k =
    ground (arith, decimal-IsNumber f (n / 10) ((b'0' + n % 10) ∷ out))

pub to_string-IsNumber : (n : ℕ) → IsNumber (to_string n)
unfolding to_string
to_string-IsNumber n = decimal-IsNumber (suc n) n [] (omega arith) tt

pub IsNumber-AreDigits : (s : Bytes) → IsNumber s → AreDigits s
IsNumber-AreDigits [] h = absurd h
IsNumber-AreDigits (c ∷ s) h = h

atol-IsNumber :
    (s : Bytes) (n : ℕ) → IsNumber s → (read_digits 0 s).0 ≡ n → n < 2 ^ 63 → atol s ≡ pos n
unfolding atol
atol-IsNumber [] n h e b = absurd h
atol-IsNumber (c ∷ s) n h e b = ground arith

read_digits-whole : (n : ℕ) → (read_digits 0 (to_string n)).0 ≡ n
unfolding read_digits
read_digits-whole n =
    let whole = read_digits-to_string n [] in
    ap (λ r. r.0) (subst (λ s. read_digits 0 s ≡ (n, [])) (append-nil (to_string n)) whole)

pub atol-to_string : (n : ℕ) → n < 2 ^ 63 → atol (to_string n) ≡ pos n
atol-to_string n b = atol-IsNumber (to_string n) n (to_string-IsNumber n) (read_digits-whole n) b
