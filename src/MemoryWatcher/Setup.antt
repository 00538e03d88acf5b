-- ===== src/MemoryWatcher/Setup.antt =====
-- `SetupMemoryWatcher` and `CleanupMemoryWatcher` (src/wayland_display.cc): the levels and the
-- descriptors of the memory watcher.
pub mod Descriptors
pub mod Level
pub mod Format
use flutter_embedder_wayland.Base.{
  ℕ, zero, suc, ◌+◌, ◌≡◌, refl, Bool, true, false, List, [], ◌∷◌, ◌++◌, map, Option, none, some,
  arith, ltb, ◌==◌, if◌then◌else◌, length,
}
use flutter_embedder_wayland.Base.Int.{ℤ, pos, negsuc}
use flutter_embedder_wayland.Base.Text.{Bytes, codes, to_string}
use flutter_embedder_wayland.Base.Atol.{atol}
use flutter_embedder_wayland.MemoryWatcher.{Watcher}

-- What is done with descriptors: an open that succeeded, a close, and a write.
pub data FdCall : Type 0 where
  opened closed : ℕ → FdCall
  wrote : ℕ → Bytes → FdCall

-- The results of the system calls of the setup: `open` for reading and for writing by path,
-- `eventfd`, and whether a `write` succeeds.
pub record Os : Type 0 where
  pub open_read : Bytes → Option ℕ
  pub open_write : Bytes → Option ℕ
  pub eventfd : Option ℕ
  pub write : ℕ → Bytes → Bool

-- `CleanupMemoryWatcher`.
close_fd : Option ℕ → List FdCall
close_fd none = []
close_fd (some fd) = closed fd ∷ []

unfoldable pub cleanup : Watcher → Watcher × List FdCall
unfolding close_fd
cleanup w = (
  record w { memory_file_fd = none; event_fd = none },
  close_fd w.memory_file_fd ++ close_fd w.event_fd,
)

-- The pieces that `std::getline` reads, up to each comma; nothing behind a comma at the end.
pieces : Bytes → Bytes → List Bytes
pieces cur [] = elim cur [ [] ↦ [] | c ∷ cs ↦ (c ∷ cs) ∷ [] ]
pieces cur (c ∷ s) = if c == b',' then cur ∷ pieces [] s else pieces (cur ++ c ∷ []) s

-- The loop over the pieces: the levels, and whether all could be read.
read_levels : List Bytes → List ℤ → List ℤ × Bool
read_levels [] levels = (levels, true)
read_levels (p ∷ ps) levels = elim (atol p) [
  | pos zero ↦ (levels, false)
  | l ↦ read_levels ps (levels ++ l ∷ [])
]

print_long : ℤ → Bytes
print_long (pos n) = to_string n
print_long (negsuc n) = b'-' ∷ to_string (suc n)

-- The line for a level, with its NUL.
unfoldable pub event_line : ℕ → ℕ → ℤ → Bytes
unfolding print_long
event_line event_fd memory_fd level =
    to_string event_fd ++ b' ' ∷ (to_string memory_fd ++ b' ' ∷ (print_long level ++ 0 ∷ []))

-- The loop that writes the lines, up to the first write that fails.
write_lines : (ℕ → Bytes → Bool) → ℕ → List Bytes → List FdCall × Bool
write_lines write fd [] = ([], true)
write_lines write fd (l ∷ ls) =
    let (calls, all) = write_lines write fd ls in
    if write fd l then (wrote fd l ∷ calls, all) else (wrote fd l ∷ [], false)

-- The end of the scope of `cleanup_watcher`, with the descriptor `event_control`.
leave : Bool → Option ℕ → Watcher → List FdCall → Bool × (Watcher × List FdCall)
unfolding cleanup close_fd
leave true event_control w calls = (true, (w, calls ++ close_fd event_control))
leave false event_control w calls =
    let (w', closes) = cleanup w in (false, (w', calls ++ (closes ++ close_fd event_control)))

-- The part of `SetupMemoryWatcher` behind the parsing of the levels.
open_watcher : Os → Bytes → Watcher → Bool × (Watcher × List FdCall)
unfolding write_lines leave event_line
open_watcher os path w = elim (os.open_read (path ++ codes "/memory.usage_in_bytes")) [
  | none ↦ leave false none (record w { memory_file_fd = none }) []
  | some file ↦
      let w₁ : Watcher = record w { memory_file_fd = some file } in
      elim (os.open_write (path ++ codes "/cgroup.event_control")) [
        | none ↦ leave false none w₁ (opened file ∷ [])
        | some control ↦ elim os.eventfd [
          | none ↦
              leave false (some control) (record w₁ { event_fd = none })
                (opened file ∷ opened control ∷ [])
          | some event ↦
              let (calls, all) =
                write_lines os.write control (map (event_line event file) w.levels) in
              leave all (some control) (record w₁ { event_fd = some event })
                (opened file ∷ opened control ∷ opened event ∷ calls)
        ]
      ]
]

-- `SetupMemoryWatcher`, with the values of the two environment variables: whether the watcher
-- runs, its state, and the calls.
unfoldable pub setup : Os → Bytes → Bytes → Watcher → Bool × (Watcher × List FdCall)
unfolding pieces read_levels open_watcher
setup os [] levels_text w = (false, (w, []))
setup os (p ∷ path) [] w = (false, (w, []))
setup os (p ∷ path) (c ∷ levels_text) w =
    let (levels, ok) = read_levels (pieces [] (c ∷ levels_text)) w.levels in
    let w' : Watcher = record w { levels = levels } in
    if ok
    then (if ltb (length levels) 1 then (false, (w', [])) else open_watcher os (p ∷ path) w')
    else (false, (w', []))
