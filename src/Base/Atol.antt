-- ===== src/Base/Atol.antt =====
-- `atol` of the C library.
use flutter_embedder_wayland.Base.{ℕ, ◌-◌, ◌^◌, Bool, ◌&&◌, ◌||◌, [], ◌∷◌, leb, ◌==◌, if◌then◌else◌}
use flutter_embedder_wayland.Base.Int.{ℤ, pos, neg_of}
use flutter_embedder_wayland.Base.Text.{Bytes, read_digits}

-- White space, a sign, digits. C leaves a value out of range undefined; the
-- library's is the nearest `long`.
abbrev is_space : ℕ → Bool
is_space c = c == 32 || (leb 9 c && leb c 13)

skip_space : Bytes → Bytes
skip_space [] = []
skip_space (c ∷ s) = if is_space c then skip_space s else c ∷ s

abbrev long_max : ℕ
long_max = 2 ^ 63 - 1

signed_digits : Bytes → ℤ
signed_digits [] = pos 0
signed_digits (c ∷ s) =
    if c == b'-'
    then neg_of (let n = (read_digits 0 s).0 in if leb n (2 ^ 63) then n else 2 ^ 63)
    else let n = (read_digits 0 (if c == b'+' then s else c ∷ s)).0 in
      pos (if leb n long_max then n else long_max)

unfoldable pub atol : Bytes → ℤ
unfolding skip_space signed_digits read_digits
atol s = signed_digits (skip_space s)
