-- ===== src/MemoryWatcher/Setup/Descriptors.antt =====
-- The descriptors of the memory watcher: none is lost on any path of the setup.
use flutter_embedder_wayland.Base.{
  ℕ, ◌+◌, ◌≡◌, ◌≢◌, inl, inr, Option-cases, Bool-cases, refl, Bool, true, false, List, [], ◌∷◌,
  ◌++◌, map, Option, none, some, arith, ltb, ◌==◌, if◌then◌else◌, length,
}
use flutter_embedder_wayland.Base.Text.{Bytes, codes}
use flutter_embedder_wayland.MemoryWatcher.{Watcher}
use flutter_embedder_wayland.MemoryWatcher.Setup.{
  FdCall, opened, closed, wrote, Os, pieces, read_levels, event_line, write_lines, open_watcher,
  setup,
}

-- How often a descriptor was opened and closed.
abbrev pub times_opened : ℕ → List FdCall → ℕ
times_opened x [] = 0
times_opened x (opened fd ∷ cs) = (if fd == x then 1 else 0) + times_opened x cs
times_opened x (_ ∷ cs) = times_opened x cs

abbrev pub times_closed : ℕ → List FdCall → ℕ
times_closed x [] = 0
times_closed x (closed fd ∷ cs) = (if fd == x then 1 else 0) + times_closed x cs
times_closed x (_ ∷ cs) = times_closed x cs

-- How often the watcher holds it.
abbrev pub holds : ℕ → Option ℕ → ℕ
holds x none = 0
holds x (some fd) = if fd == x then 1 else 0

abbrev pub times_held : ℕ → Watcher → ℕ
times_held x w = holds x w.memory_file_fd + holds x w.event_fd

abbrev pub lines_written : List FdCall → List Bytes
lines_written [] = []
lines_written (wrote fd l ∷ cs) = l ∷ lines_written cs
lines_written (_ ∷ cs) = lines_written cs

-- How a setup ends, with its result, the watcher and its calls.
pub record IsSetUp (runs : Bool) (w : Watcher) (calls : List FdCall) : Type 0 where
  pub balanced : (x : ℕ) → times_opened x calls ≡ times_closed x calls + times_held x w
  pub running :
      runs ≡ true
      → (file : ℕ) × (event : ℕ) × (w.memory_file_fd ≡ some file)
        × (w.event_fd ≡ some event)
        × (lines_written calls ≡ map (event_line event file) w.levels)
        × (w.levels ≢ [])
  pub stopped : runs ≡ false → (w.memory_file_fd ≡ none) × (w.event_fd ≡ none)

write_lines_only :
    (write : ℕ → Bytes → Bool) (fd x : ℕ) (ls : List Bytes) (rest : List FdCall)
    → (times_opened x ((write_lines write fd ls).0 ++ rest) ≡ times_opened x rest)
      × (times_closed x ((write_lines write fd ls).0 ++ rest) ≡ times_closed x rest)
unfolding write_lines
write_lines_only write fd x [] rest = (refl, refl)
write_lines_only write fd x (l ∷ ls) rest = ground (arith, write_lines_only write fd x ls rest)

write_lines_all :
    (write : ℕ → Bytes → Bool) (fd control : ℕ) (ls : List Bytes)
    → (write_lines write fd ls).1 ≡ true
    → lines_written ((write_lines write fd ls).0 ++ closed control ∷ []) ≡ ls
unfolding write_lines
write_lines_all write fd control [] h = refl
write_lines_all write fd control (l ∷ ls) h = ground (arith, write_lines_all write fd control ls)

open_watcher-IsSetUp :
    (os : Os) (path : Bytes) (w : Watcher)
    → w.levels ≢ []
    → w.memory_file_fd ≡ none
    → w.event_fd ≡ none
    → let (runs, (w', calls)) = open_watcher os path w in IsSetUp runs w' calls
unfolding open_watcher
open_watcher-IsSetUp os path w ne m e =
    elim (Option-cases (os.open_read (path ++ codes "/memory.usage_in_bytes"))) [
      | inl a ↦ ground arith
      | inr (file, a) ↦
          elim (Option-cases (os.open_write (path ++ codes "/cgroup.event_control"))) [
            | inl b ↦ ground arith
            | inr (control, b) ↦ elim (Option-cases os.eventfd) [
              | inl c ↦ ground arith
              | inr (event, c) ↦
                  let lines = map (event_line event file) w.levels in
                  let closes = closed file ∷ closed event ∷ closed control ∷ [] in
                  let only = λ (x : ℕ). write_lines_only os.write control x lines in
                  record {
                    balanced = λ x. ground (arith, only x closes, only x (closed control ∷ []));
                    running = λ h. (
                      file,
                      event,
                      ground arith,
                      ground arith,
                      ground (arith, write_lines_all os.write control control lines),
                      ground arith,
                    );
                    stopped = ground arith;
                  }
            ]
          ]
    ]

none_written : (w : Watcher) → w.memory_file_fd ≡ none → w.event_fd ≡ none → IsSetUp false w []
none_written w m e = ground arith

-- From a watcher without descriptors, whatever the environment and the kernel answer: each
-- descriptor is opened as often as it is closed and held at the end together. If the setup ends
-- well, the watcher has both its descriptors, at least one level, and a line written for each;
-- otherwise it has no descriptor.
pub setup-IsSetUp :
    (os : Os) (path levels_text : Bytes) (w : Watcher)
    → w.memory_file_fd ≡ none
    → w.event_fd ≡ none
    → let (runs, (w', calls)) = setup os path levels_text w in IsSetUp runs w' calls
unfolding setup
setup-IsSetUp os [] levels_text w m e = none_written w m e
setup-IsSetUp os (p ∷ path) [] w m e = none_written w m e
setup-IsSetUp os (p ∷ path) (c ∷ levels_text) w m e =
    let (levels, ok) = read_levels (pieces [] (c ∷ levels_text)) w.levels in
    let w' : Watcher = record w { levels = levels } in
    elim (Bool-cases ok) [
      | inl o ↦ elim (Bool-cases (ltb (length levels) 1)) [
        | inl few ↦ rw (o, few) (none_written w' m e)
        | inr enough ↦ rw (o, enough) (open_watcher-IsSetUp os (p ∷ path) w' (ground arith) m e)
      ]
      | inr bad ↦ rw bad (none_written w' m e)
    ]
