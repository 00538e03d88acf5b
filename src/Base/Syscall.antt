-- ===== src/Base/Syscall.antt =====
-- System calls. The kernel is outside the program: a call site takes the list of the results that
-- its calls return, one after the other. The retry loops
-- `do { rv = call(); } while (rv == -1 && errno == EINTR);` run through that list.
use Prim.Native.Nat.{ℕ}
use mathlib.Core.Bool.{Bool, true, false}
use mathlib.Core.Path.{◌≡◌}
use mathlib.Core.Option.{Option, none, some}
use mathlib.Core.List.{List, [], ◌∷◌, ◌++◌}
use native.Mathlib.Omega.{arith}
use flutter_embedder_wayland.Base.Lists.{All}

pub data Errno : Type 0 where
  eintr eagain other_error : Errno

-- The result of `read`, `write`, `ppoll`: a count, or -1 with `errno`.
pub data Rv : Type 0 where
  done : ℕ → Rv
  fails : Errno → Rv

abbrev pub is_eintr : Rv → Bool
is_eintr (fails eintr) = true
is_eintr _ = false

abbrev pub is_eagain : Rv → Bool
is_eagain (fails eagain) = true
is_eagain _ = false

-- A retry loop: the first result that does not ask for another round, and the results that are
-- left. `none` means that the kernel never gave such a result.
unfoldable pub retry : (Rv → Bool) → List Rv → Option (Rv × List Rv)
retry again [] = none
retry again (r ∷ rs) = elim (again r) [ true ↦ retry again rs | false ↦ some (r, rs) ]

-- Interruptions before the result change nothing.
pub retry-append :
    (again : Rv → Bool) (xs : List Rv) (r : Rv) (rs : List Rv)
    → All (λ x. again x ≡ true) xs
    → again r ≡ false
    → retry again (xs ++ r ∷ rs) ≡ some (r, rs)
unfolding retry
retry-append again [] r rs h e = ground arith
retry-append again (x ∷ xs) r rs h e = ground (arith, retry-append again xs r rs h.1 e)
