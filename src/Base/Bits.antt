-- ===== src/Base/Bits.antt =====
-- The bits of `|` and `&` on unsigned words. The native operations are recursions on binary digits
-- with the first number as fuel.
use Prim.Native.Nat.{bit_and, bit_or, digits, bitwise, bit_and-bitwise, bit_or-bitwise, min, max}
use flutter_embedder_wayland.Base.{
  ℕ, zero, suc, ◌+◌, ◌*◌, ◌/◌, ◌%◌, ◌^◌, ◌≤◌, ◌≡◌, refl, Bool, false, ◌&&◌, ◌||◌, not, arith, ◌==◌,
}
use native.Mathlib.Nat.{pow-suc}

-- Bit `k` of `x`.
unfoldable pub test_bit : ℕ → ℕ → Bool
test_bit x zero = x % 2 == 1
test_bit x (suc k) = test_bit (x / 2) k

-- More fuel than the number changes nothing.
digits-more :
    (z : ℕ → ℕ) (f : ℕ → ℕ → ℕ) (k n a b : ℕ) → a ≤ n → n ≤ k → digits z f k a b ≡ digits z f n a b
digits-more z f zero zero a b p q = refl
digits-more z f zero (suc n) a b p q = absurd (omega arith)
digits-more z f (suc k) zero zero b p q = refl
digits-more z f (suc k) zero (suc a) b p q = absurd (omega arith)
digits-more z f (suc k) (suc n) zero b p q = refl
digits-more z f (suc k) (suc n) (suc a) b p q =
    rw (digits-more z f k n (suc a / 2) (b / 2) (omega arith) (omega arith))

bitwise_lowest :
    (z : ℕ → ℕ) (f : ℕ → ℕ → ℕ)
    → ((b : ℕ) → z b ≡ z (b / 2) * 2 + f 0 (b % 2))
    → (a b : ℕ) → bitwise z f a b ≡ bitwise z f (a / 2) (b / 2) * 2 + f (a % 2) (b % 2)
bitwise_lowest z f base zero b = base b
bitwise_lowest z f base (suc a) b =
    rw (digits-more z f a (suc a / 2) (suc a / 2) (b / 2) (omega arith) (omega arith))

-- The lowest bit, and the word without it.
bit_or_halves :
    (a b : ℕ) → (bit_or a b % 2 ≡ max (a % 2) (b % 2)) × (bit_or a b / 2 ≡ bit_or (a / 2) (b / 2))
bit_or_halves a b =
    let e : bit_or a b ≡ bit_or (a / 2) (b / 2) * 2 + max (a % 2) (b % 2) =
      simp bit_or-bitwise (bitwise_lowest (λ y. y) max (λ y. omega arith) a b) in
    (omega arith, omega arith)

bit_and_halves :
    (a b : ℕ)
    → (bit_and a b % 2 ≡ min (a % 2) (b % 2)) × (bit_and a b / 2 ≡ bit_and (a / 2) (b / 2))
bit_and_halves a b =
    let e : bit_and a b ≡ bit_and (a / 2) (b / 2) * 2 + min (a % 2) (b % 2) =
      simp bit_and-bitwise (bitwise_lowest (λ y. 0) min (λ y. omega arith) a b) in
    (omega arith, omega arith)

pub test_bit-or : (a b k : ℕ) → test_bit (bit_or a b) k ≡ (test_bit a k || test_bit b k)
unfolding test_bit
test_bit-or a b zero = ground (arith, bit_or_halves a b)
test_bit-or a b (suc k) = rw (bit_or_halves a b).1 (test_bit-or (a / 2) (b / 2) k)

pub test_bit-and : (a b k : ℕ) → test_bit (bit_and a b) k ≡ (test_bit a k && test_bit b k)
unfolding test_bit
test_bit-and a b zero = ground (arith, bit_and_halves a b)
test_bit-and a b (suc k) = rw (bit_and_halves a b).1 (test_bit-and (a / 2) (b / 2) k)

pub test_bit-zero : (k : ℕ) → test_bit 0 k ≡ false
unfolding test_bit
test_bit-zero zero = refl
test_bit-zero (suc k) = test_bit-zero k

digits_and-zero : (n a : ℕ) → digits (λ y. 0) min n a 0 ≡ 0
digits_and-zero zero a = refl
digits_and-zero (suc n) zero = refl
digits_and-zero (suc n) (suc a) = omega (arith, digits_and-zero n (suc a / 2))

bit_and-zero : (a : ℕ) → bit_and a 0 ≡ 0
bit_and-zero a = simp bit_and-bitwise (digits_and-zero a a)

-- `x & (1 << k)` is 0 exactly when bit `k` of `x` is not set.
pub bit_and-pow : (x k : ℕ) → (bit_and x (2 ^ k) == 0) ≡ not (test_bit x k)
unfolding test_bit
bit_and-pow x zero = ground (arith, bit_and_halves x 1, bit_and-zero (x / 2))
bit_and-pow x (suc k) =
    let double : 2 ^ suc k ≡ 2 ^ k * 2 = pow-suc 2 k in
    let half : 2 ^ suc k / 2 ≡ 2 ^ k = omega arith in
    let even : 2 ^ suc k % 2 ≡ 0 = omega arith in
    let (low, high) = bit_and_halves x (2 ^ suc k) in
    let high' : bit_and x (2 ^ suc k) / 2 ≡ bit_and (x / 2) (2 ^ k) = rw half at high in
    ground (arith, bit_and-pow (x / 2) k)

pub test_bit-pow : (j k : ℕ) → test_bit (2 ^ j) k ≡ (j == k)
unfolding test_bit
test_bit-pow zero zero = refl
test_bit-pow zero (suc k) = rw (test_bit-zero k) (ground arith)
test_bit-pow (suc j) zero = let double : 2 ^ suc j ≡ 2 ^ j * 2 = pow-suc 2 j in ground arith
test_bit-pow (suc j) (suc k) =
    let double : 2 ^ suc j ≡ 2 ^ j * 2 = pow-suc 2 j in
    let half : 2 ^ suc j / 2 ≡ 2 ^ j = omega arith in rw half (rw (test_bit-pow j k) (ground arith))
