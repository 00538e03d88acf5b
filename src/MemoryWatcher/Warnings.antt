-- ===== src/MemoryWatcher/Warnings.antt =====
-- When the watcher warns, over any sequence of events.
use flutter_embedder_wayland.Base.{
  ℕ, suc, ◌+◌, ◌^◌, ◌≤◌, ◌<◌, ◌≡◌, refl, inl, inr, Bool, List, [], ◌∷◌, ◌++◌, Option, some, arith,
  if◌then◌else◌, Option-cases, All, keep, length, ◌⊎◌, ◌≢◌,
}
use flutter_embedder_wayland.Base.Int.{pos}
use flutter_embedder_wayland.Base.Chain.{◌>>=◌}
use flutter_embedder_wayland.Base.Text.{Bytes}
use flutter_embedder_wayland.Base.Atol.{atol}
use flutter_embedder_wayland.MemoryWatcher.Levels.{IsSorted, reached, level_of-keep}
use flutter_embedder_wayland.MemoryWatcher.{
  Watcher, Read, Outcome, silent, refused, warned, cooldown, level_of, compare_usage, handle_event,
  read_usage, text,
}

-- An event of the watcher's descriptor: the time, what the usage file gives, and whether the engine
-- takes the warning.
pub record Event : Type 0 where
  pub now_ns : ℕ
  pub reads : List Read
  pub accepts : Bool

-- The times of the warnings that the engine took, in order, and the watcher at the end.
unfoldable pub run : List Event → Watcher → Option (List ℕ × Watcher)
run [] w = some ([], w)
run (e ∷ es) w = handle_event e.accepts e.now_ns e.reads w >>= λ (outcome, w').
    run es w' >>= λ (times, w'').
    some (elim outcome [ silent ↦ times | refused ↦ times | warned ↦ e.now_ns ∷ times ], w'')

-- Each time is at least the cooldown after the one before it; `last` comes before the first.
abbrev pub IsSpaced : ℕ → List ℕ → Type 0
IsSpaced last [] = Unit {0}
IsSpaced last (t ∷ ts) = (last + cooldown ≤ t) × IsSpaced t ts

-- The last of the times, from `last` on.
abbrev pub latest : ℕ → List ℕ → ℕ
latest last [] = last
latest last (t ∷ ts) = latest t ts

pub IsSpaced-append :
    (last : ℕ) (xs ys : List ℕ)
    → IsSpaced last xs
    → IsSpaced (latest last xs) ys
    → IsSpaced last (xs ++ ys)
IsSpaced-append last [] ys h k = k
IsSpaced-append last (x ∷ xs) ys h k = (h.0, IsSpaced-append x xs ys h.1 k)

pub latest-append :
    (last : ℕ) (xs ys : List ℕ) → latest last (xs ++ ys) ≡ latest (latest last xs) ys
latest-append last [] ys = refl
latest-append last (x ∷ xs) ys = latest-append x xs ys

-- One event: a warning that the engine took sets the time of the last warning, after the cooldown,
-- and nothing else changes it.
pub handle_event-last :
    (e : Event) (w w' : Watcher) (o : Outcome)
    → w.last_warning_sent_ns + cooldown < 2 ^ 64
    → handle_event e.accepts e.now_ns e.reads w ≡ some (o, w')
    → (o ≡ warned
        → (w.last_warning_sent_ns + cooldown ≤ e.now_ns) × (w'.last_warning_sent_ns ≡ e.now_ns))
      × ((o ≡ warned → ⊥) → w'.last_warning_sent_ns ≡ w.last_warning_sent_ns)
unfolding handle_event compare_usage
handle_event-last e w w' o fits h = ground arith

run_cons :
    (e : Event) (es : List Event) (w w' : Watcher) (times : List ℕ)
    → run (e ∷ es) w ≡ some (times, w')
    → (o : Outcome) × (w₁ : Watcher) × (ts : List ℕ) × (handle_event e.accepts e.now_ns e.reads w
        ≡ some (o, w₁))
      × (run es w₁ ≡ some (ts, w'))
      × ((o ≡ warned → times ≡ e.now_ns ∷ ts) × ((o ≡ warned → ⊥) → times ≡ ts))
unfolding run
run_cons e es w w' times h = elim (Option-cases (handle_event e.accepts e.now_ns e.reads w)) [
  | inl p ↦ absurd (ground arith)
  | inr ((o, w₁), p) ↦ elim (Option-cases (run es w₁)) [
    | inl q ↦ absurd (ground arith)
    | inr ((ts, w₂), q) ↦ (o, w₁, ts, p, ground arith, ground arith)
  ]
]

pub Outcome-cases : (o : Outcome) → (o ≡ warned) ⊎ (o ≡ warned → ⊥)
Outcome-cases warned = inl refl
Outcome-cases silent = inr (λ e. cc)
Outcome-cases refused = inr (λ e. cc)

-- Over any sequence of events at times more than 20 s below 2 ^ 64, the warnings that the engine took are at least 20 s apart, and the
-- first is at least 20 s after the last one before (from the start: after the clock's zero).
pub run-IsSpaced :
    (es : List Event) (w w' : Watcher) (times : List ℕ)
    → All (λ e. e.now_ns + cooldown < 2 ^ 64) es
    → w.last_warning_sent_ns + cooldown < 2 ^ 64
    → run es w ≡ some (times, w')
    → IsSpaced w.last_warning_sent_ns times
run-IsSpaced [] w w' times a fits h = unfold run in ground arith
run-IsSpaced (e ∷ es) w w' times a fits h =
    let (o, w₁, ts, p, q, r) = run_cons e es w w' times h in
    let (took, left) = handle_event-last e w w₁ o fits p in
    elim (Outcome-cases o) [
      | inl yes' ↦
          let (spaced, last) = took yes' in
          rw (r.0 yes') (spaced, rw last at (run-IsSpaced es w₁ w' ts a.1 (rw last (a.0)) q))
      | inr no' ↦
          rw (r.1 no') (rw (left no') at (run-IsSpaced es w₁ w' ts a.1 (rw (left no') fits) q))
    ]

compare_usage_lem :
    (accepts : Bool) (now_ns m : ℕ) (w : Watcher) (n : ℕ)
    → level_of (pos (suc m)) w.levels ≡ n
    → let (o, w') = compare_usage accepts now_ns (pos (suc m)) w in
      (w.current_level < n → o ≡ (if accepts then warned else refused))
      × (n ≤ w.current_level → o ≡ silent)
      × (o ≡ refused → w' ≡ w)
      × (o ≢ refused → w'.current_level ≡ n)
unfolding compare_usage
compare_usage_lem accepts now_ns m w n e = ground arith

-- Once the cooldown is over, which ends below 2 ^ 64, with sorted levels and a usage that is read as a positive number: the
-- engine is told exactly when the usage has reached more levels than before, and unless it refuses,
-- the number of levels that are reached is kept; if it refuses, nothing changes.
pub warns_on_rise :
    (accepts : Bool) (now_ns m : ℕ) (reads : List Read) (s : Bytes) (w : Watcher)
    → IsSorted w.levels
    → w.last_warning_sent_ns + cooldown < 2 ^ 64
    → w.last_warning_sent_ns + cooldown ≤ now_ns
    → read_usage [] reads ≡ some (text s)
    → atol s ≡ pos (suc m)
    → let n = length (keep (reached (pos (suc m))) w.levels) in
      (o : Outcome) × (w' : Watcher) × (handle_event accepts now_ns reads w ≡ some (o, w'))
      × (w.current_level < n → o ≡ (if accepts then warned else refused))
      × (n ≤ w.current_level → o ≡ silent)
      × (o ≡ refused → w' ≡ w)
      × (o ≢ refused → w'.current_level ≡ n)
unfolding handle_event
warns_on_rise accepts now_ns m reads s w sorted fits over e mem =
    let (o, w') = compare_usage accepts now_ns (pos (suc m)) w in
    let count = level_of-keep (pos (suc m)) w.levels sorted in
    let (warns, waits, kept, taken) = compare_usage_lem accepts now_ns m w _ count in
    (o, w', ground arith, warns, waits, kept, taken)
