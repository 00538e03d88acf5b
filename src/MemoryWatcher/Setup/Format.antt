-- ===== src/MemoryWatcher/Setup/Format.antt =====
-- The levels of memory in the environment: the usage text of src/main.cc says that they are numbers
-- of bytes with commas between them.
use mathlib.Core.List.{append_assoc, append-nil, map-map}
use flutter_embedder_wayland.Base.{
  ℕ, zero, suc, ◌^◌, ◌<◌, ◌≡◌, ◌≢◌, refl, sym, ◌∙◌, ap, subst, Bool, true, List, [], ◌∷◌, ◌++◌, map,
  some, arith, All,
}
use flutter_embedder_wayland.Base.Int.{ℤ, pos}
use flutter_embedder_wayland.Base.Text.{Bytes, codes, to_string}
use flutter_embedder_wayland.Base.Atol.{atol}
use flutter_embedder_wayland.Base.Numerals.{
  AreDigits, IsNumber, to_string-IsNumber, IsNumber-AreDigits, atol-to_string,
}
use flutter_embedder_wayland.MemoryWatcher.{Watcher, new}
use flutter_embedder_wayland.MemoryWatcher.Setup.{
  Os, opened, closed, wrote, pieces, read_levels, event_line, close_fd, write_lines, leave,
  open_watcher, setup,
}

-- Numbers with commas between them.
abbrev pub print_levels : ℕ → List ℕ → Bytes
print_levels n [] = to_string n
print_levels n (m ∷ ms) = to_string n ++ b',' ∷ print_levels m ms

-- A piece ends at a comma, or at the end.
pieces-AreDigits :
    (cur ds rest : Bytes)
    → AreDigits ds
    → pieces cur (ds ++ b',' ∷ rest) ≡ (cur ++ ds) ∷ pieces [] rest
unfolding pieces
pieces-AreDigits cur [] rest h = ground (arith, append-nil cur)
pieces-AreDigits cur (d ∷ ds) rest h =
    ground (arith, pieces-AreDigits (cur ++ d ∷ []) ds rest h.1, append_assoc cur (d ∷ []) ds)

pieces_end : (c : ℕ) (cur ds : Bytes) → AreDigits ds → pieces (c ∷ cur) ds ≡ (c ∷ (cur ++ ds)) ∷ []
unfolding pieces
pieces_end c cur [] h = ap (λ s. (c ∷ s) ∷ []) (sym (append-nil cur))
pieces_end c cur (d ∷ ds) h =
    ground (arith, pieces_end c (cur ++ d ∷ []) ds h.1, append_assoc cur (d ∷ []) ds)

last_piece : (s : Bytes) → IsNumber s → pieces [] s ≡ s ∷ []
unfolding pieces
last_piece [] h = absurd h
last_piece (c ∷ s) h = ground (arith, pieces_end c [] s h.1)

pieces-print_levels : (n : ℕ) (ns : List ℕ) → pieces [] (print_levels n ns) ≡ map to_string (n ∷ ns)
pieces-print_levels n [] = last_piece (to_string n) (to_string-IsNumber n)
pieces-print_levels n (m ∷ ms) =
    pieces-AreDigits [] (to_string n) (print_levels m ms)
      (IsNumber-AreDigits (to_string n) (to_string-IsNumber n))
    ∙ ap (λ ps. to_string n ∷ ps) (pieces-print_levels m ms)

read_level :
    (n : ℕ) (ps : List Bytes) (p : Bytes) (ls : List ℤ)
    → 0 < n
    → atol p ≡ pos n
    → read_levels (p ∷ ps) ls ≡ read_levels ps (ls ++ pos n ∷ [])
unfolding read_levels
read_level zero ps p ls h e = absurd (omega arith)
read_level (suc n) ps p ls h e = ground arith

read_levels-to_string :
    (ns : List ℕ) (ls : List ℤ)
    → All (λ n. (0 < n) × (n < 2 ^ 63)) ns
    → read_levels (map to_string ns) ls ≡ (ls ++ map pos ns, true)
unfolding read_levels
read_levels-to_string [] ls h = ap (λ s. (s, true)) (sym (append-nil ls))
read_levels-to_string (n ∷ ns) ls h =
    read_level n (map to_string ns) (to_string n) ls h.0.0 (atol-to_string n h.0.1)
    ∙ read_levels-to_string ns (ls ++ pos n ∷ []) h.1
    ∙ ap (λ s. (s, true)) (append_assoc ls (pos n ∷ []) (map pos ns))

-- The levels are read back from their printed form.
read_levels-print_levels :
    (n : ℕ) (ns : List ℕ)
    → All (λ m. (0 < m) × (m < 2 ^ 63)) (n ∷ ns)
    → read_levels (pieces [] (print_levels n ns)) [] ≡ (map pos (n ∷ ns), true)
read_levels-print_levels n ns h =
    ap (λ ps. read_levels ps []) (pieces-print_levels n ns) ∙ read_levels-to_string (n ∷ ns) [] h

write_lines-all :
    (write : ℕ → Bytes → Bool) (fd : ℕ) (ls : List Bytes)
    → ((line : Bytes) → write fd line ≡ true)
    → write_lines write fd ls ≡ (map (wrote fd) ls, true)
unfolding write_lines
write_lines-all write fd [] h = refl
write_lines-all write fd (l ∷ ls) h = ground (arith, h l, write_lines-all write fd ls h)

print_levels_nonempty : (n : ℕ) (ns : List ℕ) → print_levels n ns ≢ []
unfolding pieces
print_levels_nonempty n ns e =
    let split = subst (λ s. pieces [] s ≡ map to_string (n ∷ ns)) e (pieces-print_levels n ns) in
    absurd (cc)

setup-open_watcher :
    (os : Os) (p : ℕ) (path text : Bytes) (w : Watcher) (l : ℤ) (ls : List ℤ)
    → text ≢ []
    → read_levels (pieces [] text) w.levels ≡ (l ∷ ls, true)
    → setup os (p ∷ path) text w ≡ open_watcher os (p ∷ path) (record w { levels = l ∷ ls })
unfolding setup
setup-open_watcher os p path [] w l ls h e = absurd (h refl)
setup-open_watcher os p path (c ∷ text) w l ls h e = ground (arith, e)

open_watcher-opened :
    (os : Os) (path : Bytes) (w : Watcher) (file control event : ℕ)
    → os.open_read (path ++ codes "/memory.usage_in_bytes") ≡ some file
    → os.open_write (path ++ codes "/cgroup.event_control") ≡ some control
    → os.eventfd ≡ some event
    → ((fd : ℕ) (line : Bytes) → os.write fd line ≡ true)
    → open_watcher os path w ≡ (
      true,
      (
        record w { memory_file_fd = some file; event_fd = some event },
        opened file
              ∷ opened control
              ∷ opened event
              ∷ map (wrote control) (map (event_line event file) w.levels)
            ++ closed control ∷ [],
      ),
    )
unfolding open_watcher leave close_fd
open_watcher-opened os path w file control event e f g h =
    let lines = map (event_line event file) w.levels in
    ground (arith, write_lines-all os.write control lines (h control))

-- With a path in the environment, one or more levels in the documented form, each positive and below
-- 2 ^ 63, and files, an event descriptor and writes that succeed: the memory watcher runs with
-- exactly these levels in their order, keeps the descriptors of the usage and of the event, has
-- written one line for each level to the control file, in order, and has closed that file.
pub setup-print_levels :
    (os : Os) (p : ℕ) (path : Bytes) (n : ℕ) (ns : List ℕ) (file control event : ℕ)
    → All (λ m. (0 < m) × (m < 2 ^ 63)) (n ∷ ns)
    → os.open_read (p ∷ path ++ codes "/memory.usage_in_bytes") ≡ some file
    → os.open_write (p ∷ path ++ codes "/cgroup.event_control") ≡ some control
    → os.eventfd ≡ some event
    → ((fd : ℕ) (line : Bytes) → os.write fd line ≡ true)
    → setup os (p ∷ path) (print_levels n ns) new ≡ (
      true,
      (
        record new { levels = map pos (n ∷ ns); memory_file_fd = some file; event_fd = some event },
        opened file
              ∷ opened control
              ∷ opened event
              ∷ map (λ m. wrote control (event_line event file (pos m))) (n ∷ ns)
            ++ closed control ∷ [],
      ),
    )
unfolding new
setup-print_levels os p path n ns file control event h e f g w =
    let read = read_levels-print_levels n ns h in
    let s =
      setup-open_watcher os p path (print_levels n ns) new (pos n) (map pos ns)
        (print_levels_nonempty n ns) read in
    let o =
      open_watcher-opened os (p ∷ path) (record new { levels = map pos (n ∷ ns) }) file control
        event e f g w in
    simp map-map at (s ∙ o)
