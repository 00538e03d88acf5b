-- ===== src/Base/Int.antt =====
-- The signed integers of the C++ code (`int32_t`, `int64_t`, `long`) over the native numbers.
use Prim.Native.Nat.{ℕ, suc, ◌+◌, ◌-◌, ◌%◌, ◌^◌}
use mathlib.Core.Bool.{Bool}
use flutter_embedder_wayland.Base.Tests.{ltb, if◌then◌else◌}

-- `negsuc n` is -(n + 1).
pub data ℤ : Type 0 where
  pos : ℕ → ℤ
  negsuc : ℕ → ℤ

abbrev pub pos_part : ℤ → ℕ
pos_part (pos n) = n
pos_part (negsuc n) = 0

abbrev pub neg_part : ℤ → ℕ
neg_part (pos n) = 0
neg_part (negsuc n) = suc n

-- -n
abbrev pub neg_of : ℕ → ℤ
neg_of n = if ltb 0 n then negsuc (n - 1) else pos 0

abbrev pub ltb_ℤ : ℤ → ℤ → Bool
ltb_ℤ a b = ltb (pos_part a + neg_part b) (pos_part b + neg_part a)

-- A number in `uint64_t`: the conversion of C++ keeps the value modulo 2 ^ 64.
abbrev pub to_u64 : ℤ → ℕ
to_u64 (pos n) = n % 2 ^ 64
to_u64 (negsuc n) = 2 ^ 64 - 1 - n % 2 ^ 64
