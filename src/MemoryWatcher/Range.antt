-- ===== src/MemoryWatcher/Range.antt =====
-- The current level of the memory watcher is in the range of its levels.
use flutter_embedder_wayland.Base.{
  ℕ, ◌≤◌, ◌≡◌, Bool, List, [], ◌∷◌, some, arith, Option-cases, inl, inr, length,
}
use flutter_embedder_wayland.Base.Int.{ℤ}
use flutter_embedder_wayland.Base.Atol.{atol}
use flutter_embedder_wayland.MemoryWatcher.{
  Watcher, Outcome, text, failed, level_of, compare_usage, after_read, handle_event, read_usage,
  Read,
}

level_of-length : (mem : ℤ) (ls : List ℤ) → level_of mem ls ≤ length ls
unfolding level_of
level_of-length mem [] = omega arith
level_of-length mem (l ∷ ls) = ground (arith, level_of-length mem ls)

-- The level is the number of some of the first levels.
abbrev pub IsLevel : Watcher → Type 0
IsLevel w = w.current_level ≤ length w.levels

compare_usage-IsLevel :
    (accepts : Bool) (now : ℕ) (mem : ℤ) (w : Watcher)
    → IsLevel w
    → IsLevel (compare_usage accepts now mem w).1
unfolding compare_usage
compare_usage-IsLevel accepts now mem w h = ground (arith, level_of-length mem w.levels)

pub handle_event-IsLevel :
    (accepts : Bool) (now : ℕ) (reads : List Read) (w w' : Watcher) (o : Outcome)
    → handle_event accepts now reads w ≡ some (o, w')
    → IsLevel w
    → IsLevel w'
unfolding handle_event after_read
handle_event-IsLevel accepts now reads w w' o e h = elim (Option-cases (read_usage [] reads)) [
  | inl r ↦ ground arith
  | inr (text memstr, r) ↦ ground (arith, compare_usage-IsLevel accepts now (atol memstr) w h)
  | inr (failed, r) ↦ ground arith
]
