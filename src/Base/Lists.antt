-- ===== src/Base/Lists.antt =====
-- Lists measured by native numbers, filtering by a Boolean test, and predicates on all elements.
use Prim.Native.Nat.{ℕ, zero, suc, ◌+◌, ◌≤◌}
use mathlib.Core.Bool.{Bool, true, false}
use mathlib.Core.Path.{◌≡◌, refl, ap}
use mathlib.Core.List.{List, [], ◌∷◌, ◌++◌}
use native.Mathlib.Omega.{arith}

module _ {ℓ} {A : Type ℓ} where
  abbrev pub length : List A → ℕ
  length [] = 0
  length (x ∷ xs) = suc (length xs)

  pub length-append : (xs ys : List A) → length (xs ++ ys) ≡ length xs + length ys
  length-append [] ys = omega arith
  length-append (x ∷ xs) ys = omega (arith, length-append xs ys)

  abbrev pub take : ℕ → List A → List A
  take zero xs = []
  take (suc n) [] = []
  take (suc n) (x ∷ xs) = x ∷ take n xs

  pub length-take : (n : ℕ) (xs : List A) → length (take n xs) ≤ n
  length-take zero xs = omega arith
  length-take (suc n) [] = omega arith
  length-take (suc n) (x ∷ xs) = omega (arith, length-take n xs)

  -- A list that is short enough is taken whole.
  pub take-eq_of_le : (n : ℕ) (xs : List A) → length xs ≤ n → take n xs ≡ xs
  take-eq_of_le zero [] h = refl
  take-eq_of_le zero (x ∷ xs) h = absurd (omega arith)
  take-eq_of_le (suc n) [] h = refl
  take-eq_of_le (suc n) (x ∷ xs) h = ap (λ ys. x ∷ ys) (take-eq_of_le n xs (omega arith))

  -- The elements that pass a test, in their order.
  abbrev pub keep : (A → Bool) → List A → List A
  keep p [] = []
  keep p (x ∷ xs) = let rest = keep p xs in elim (p x) [ true ↦ x ∷ rest | false ↦ rest ]

module _ {ℓ κ} {A : Type ℓ} (P : A → Type κ) where
  abbrev pub All : List A → Type κ
  All [] = Unit
  All (x ∷ xs) = P x × All xs

  pub All-always : ((x : A) → P x) → (xs : List A) → All xs
  All-always h [] = tt
  All-always h (x ∷ xs) = (h x, All-always h xs)

  pub All-append : (xs ys : List A) → All xs → All ys → All (xs ++ ys)
  All-append [] ys _ hy = hy
  All-append (x ∷ xs) ys (px, hx) hy = (px, All-append xs ys hx hy)
