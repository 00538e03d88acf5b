-- ===== src/MemoryWatcher/Examples.antt =====
-- Runs of the memory watcher.
use flutter_embedder_wayland.Base.{
  ◌≤◌, ◌<◌, ◌≡◌, ◌≢◌, refl, true, false, List, [], ◌∷◌, some, arith, length, if◌then◌else◌, keep,
}
use flutter_embedder_wayland.Base.Int.{ℤ, pos}
use flutter_embedder_wayland.Base.Syscall.{eintr}
use flutter_embedder_wayland.Base.Text.{Bytes, codes, to_string}
use flutter_embedder_wayland.Base.Atol.{atol}
use flutter_embedder_wayland.MemoryWatcher.Levels.{reached, read_usage_total}
use flutter_embedder_wayland.MemoryWatcher.Warnings.{Event, run, warns_on_rise}
use flutter_embedder_wayland.MemoryWatcher.Setup.{Os, opened, closed, wrote, setup, event_line}
use flutter_embedder_wayland.MemoryWatcher.Setup.Format.{print_levels, setup-print_levels}
use flutter_embedder_wayland.MemoryWatcher.Setup.Descriptors.{IsSetUp, setup-IsSetUp}
use flutter_embedder_wayland.MemoryWatcher.{
  Watcher, new, Read, chunk, error, Loaded, text, read_usage, level_of, Outcome, silent, refused,
  warned, compare_usage, handle_event,
}

abbrev three_levels : List ℤ
three_levels = pos 100 ∷ pos 200 ∷ pos 300 ∷ []

-- The usage comes in two pieces, after an interruption.
abbrev usage : List Read
usage = error eintr ∷ chunk (codes "25") ∷ chunk (codes "0") ∷ chunk [] ∷ []

usage_text : read_usage [] usage ≡ some (text (codes "250"))
unfolding read_usage
usage_text = refl

-- Two bytes fit behind 29.
abbrev filled : Bytes
filled = codes "12345678901234567890123456789"

read_usage_total_example :
    (r : Loaded) × (read_usage filled
        (chunk (codes "0") ∷ error eintr ∷ chunk (codes "12") ∷ chunk (codes "3") ∷ [])
      ≡ some r)
read_usage_total_example =
    read_usage_total filled
      (chunk (codes "0") ∷ error eintr ∷ chunk (codes "12") ∷ chunk (codes "3") ∷ []) (omega arith)

-- Level 1 was reached when the last warning was sent, at 5 s.
abbrev watching : Watcher
watching = record {
  levels = three_levels;
  current_level = 1;
  memory_file_fd = some 10;
  last_warning_sent_ns = 5_000_000_000;
  event_fd = some 11;
}

-- Events at 10 s, when it is too early, at 25 s, and at 26 s.
abbrev events : List Event
events =
    record { now_ns = 10_000_000_000; reads = usage; accepts = true }
    ∷ record { now_ns = 25_000_000_000; reads = usage; accepts = true }
    ∷ record { now_ns = 26_000_000_000; reads = usage; accepts = true }
    ∷ []

abbrev warned_once : Watcher
warned_once = record watching { current_level = 2; last_warning_sent_ns = 25_000_000_000 }

one_warning : run events watching ≡ some (25_000_000_000 ∷ [], warned_once)
unfolding run handle_event read_usage compare_usage level_of atol
one_warning = refl

warns_on_rise_example :
    (o : Outcome) × (w' : Watcher) × (handle_event true 25_000_000_000 usage watching
      ≡ some (o, w'))
    × (1 < length (keep (reached (pos 250)) three_levels) → o ≡ (if true then warned else refused))
    × (length (keep (reached (pos 250)) three_levels) ≤ 1 → o ≡ silent)
    × (o ≡ refused → w' ≡ watching)
    × (o ≢ refused → w'.current_level ≡ length (keep (reached (pos 250)) three_levels))
unfolding atol
warns_on_rise_example =
    warns_on_rise true 25_000_000_000 249 usage (codes "250") watching (ground arith) (omega arith)
      (omega arith) usage_text refl

-- The first line cannot be written.
abbrev full_disk : Os
full_disk = record {
  open_read = λ path. some 3;
  open_write = λ path. some 4;
  eventfd = some 5;
  write = λ fd line. false;
}

setup_fails : setup full_disk (codes "/cg") (codes "100,200") new ≡ (
  false,
  (
    record new { levels = pos 100 ∷ pos 200 ∷ [] },
    opened 3
        ∷ opened 4
        ∷ opened 5
        ∷ wrote 4 (event_line 5 3 (pos 100))
        ∷ closed 3
        ∷ closed 5
        ∷ closed 4
        ∷ [],
  ),
)
unfolding setup new atol
setup_fails = refl

setup-IsSetUp_example :
    let (runs, (w', calls)) = setup full_disk (codes "/cg") (codes "100,200") new in
    IsSetUp runs w' calls
unfolding new
setup-IsSetUp_example = setup-IsSetUp full_disk (codes "/cg") (codes "100,200") new refl refl

abbrev all_works : Os
all_works = record full_disk { write = λ fd line. true }

documented_form : print_levels 100 (200 ∷ []) ≡ codes "100,200"
unfolding to_string
documented_form = refl

setup-print_levels_example : setup all_works (codes "/cg") (print_levels 100 (200 ∷ [])) new ≡ (
  true,
  (
    record new { levels = pos 100 ∷ pos 200 ∷ []; memory_file_fd = some 3; event_fd = some 5 },
    opened 3
        ∷ opened 4
        ∷ opened 5
        ∷ wrote 4 (event_line 5 3 (pos 100))
        ∷ wrote 4 (event_line 5 3 (pos 200))
        ∷ closed 4
        ∷ [],
  ),
)
setup-print_levels_example =
    setup-print_levels all_works b'/' (codes "cg") 100 (200 ∷ []) 3 4 5
      ((omega arith, omega arith), ((omega arith, omega arith), tt)) refl refl refl
      (λ fd line. refl)
