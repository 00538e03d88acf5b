-- ===== src/MemoryWatcher/Levels.antt =====
-- The level of a memory usage, and the bounds of the buffer that it is read into.
use flutter_embedder_wayland.Base.{
  ℕ, suc, ◌-◌, ◌≤◌, ◌<◌, ◌≡◌, refl, ap, Bool, true, false, not, List, [], ◌∷◌, ◌++◌, some, arith,
  length, length-append, take, length-take, keep, All,
}
use flutter_embedder_wayland.Base.Int.{ℤ, ltb_ℤ}
use flutter_embedder_wayland.Base.Syscall.{eintr}
use flutter_embedder_wayland.Base.Text.{Bytes}
use flutter_embedder_wayland.MemoryWatcher.{
  Read, chunk, error, readsz, Loaded, text, failed, read_usage, level_of,
}

-- Levels that do not fall.
abbrev pub IsSorted : List ℤ → Type 0
IsSorted [] = Unit {0}
IsSorted (l ∷ ls) = All (λ x. ltb_ℤ x l ≡ false) ls × IsSorted ls

-- A level that the usage has reached.
abbrev pub reached : ℤ → ℤ → Bool
reached mem l = not (ltb_ℤ mem l)

ltb_ℤ_trans : (a b c : ℤ) → ltb_ℤ a b ≡ true → ltb_ℤ c b ≡ false → ltb_ℤ a c ≡ true
ltb_ℤ_trans a b c h k = ground arith

none_reached :
    (mem l : ℤ) (ls : List ℤ)
    → ltb_ℤ mem l ≡ true
    → All (λ x. ltb_ℤ x l ≡ false) ls
    → keep (reached mem) ls ≡ []
none_reached mem l [] h k = refl
none_reached mem l (x ∷ ls) h k =
    ground (arith, ltb_ℤ_trans mem l x h k.0, none_reached mem l ls h k.1)

-- For sorted levels, the loop counts the levels that the usage has reached.
pub level_of-keep :
    (mem : ℤ) (ls : List ℤ) → IsSorted ls → level_of mem ls ≡ length (keep (reached mem) ls)
unfolding level_of
level_of-keep mem [] h = refl
level_of-keep mem (l ∷ ls) h = ground (arith, none_reached mem l ls, level_of-keep mem ls h.1)

-- The text of the usage leaves room for the NUL behind it, whatever the file holds.
pub read_usage_bounds :
    (memstr : Bytes) (rs : List Read) (s : Bytes)
    → length memstr < readsz
    → read_usage memstr rs ≡ some (text s)
    → length s < readsz
unfolding read_usage
read_usage_bounds memstr [] s h e = absurd (cc)
read_usage_bounds memstr (error eintr ∷ rs) s h e = read_usage_bounds memstr rs s h e
read_usage_bounds memstr (error _ ∷ rs) s h e = absurd (cc)
read_usage_bounds memstr (chunk bytes ∷ rs) s h e =
    let room = readsz - 1 - length memstr in
    let fits : length (memstr ++ take room bytes) < readsz =
      omega (arith, length-append memstr (take room bytes), length-take room bytes) in
    ground (arith, read_usage_bounds (memstr ++ take room bytes) rs s fits)

-- A call of `read` that was not interrupted.
abbrev ends_call : Read → Bool
ends_call (error eintr) = false
ends_call _ = true

-- One chunk: the loop ends with it, or there is less room than before.
read_usage_chunk :
    (memstr bytes : Bytes) (rs : List Read) (n : ℕ) (got : Bytes)
    → readsz - 1 - length memstr < suc n
    → take (readsz - 1 - length memstr) bytes ≡ got
    → (readsz - 1 - length (memstr ++ got) < n
        → (r : Loaded) × (read_usage (memstr ++ got) rs ≡ some r))
    → (r : Loaded) × (read_usage memstr (chunk bytes ∷ rs) ≡ some r)
unfolding read_usage
read_usage_chunk memstr bytes rs n [] h e rest = (text memstr, ground arith)
read_usage_chunk memstr bytes rs n (c ∷ cs) h e rest =
    let room : suc (length cs) ≤ readsz - 1 - length memstr =
      omega (arith, ap length e, length-take (readsz - 1 - length memstr) bytes) in
    let (r, e') = rest (omega (arith, length-append memstr (c ∷ cs))) in (r, ground arith)

-- The loop ends: after one call more than there is room in the buffer, not counting those that were
-- interrupted, it has a result.
pub read_usage_total :
    (memstr : Bytes) (rs : List Read)
    → readsz - 1 - length memstr < length (keep ends_call rs)
    → (r : Loaded) × (read_usage memstr rs ≡ some r)
unfolding read_usage
read_usage_total memstr [] h = absurd (omega arith)
read_usage_total memstr (error eintr ∷ rs) h = read_usage_total memstr rs h
read_usage_total memstr (error _ ∷ rs) h = (failed, refl)
read_usage_total memstr (chunk bytes ∷ rs) h =
    read_usage_chunk memstr bytes rs (length (keep ends_call rs)) _ h refl
      (read_usage_total (memstr ++ take (readsz - 1 - length memstr) bytes) rs)
