-- ===== src/MainLoop/Examples.antt =====
-- A run of the main loop.
use flutter_embedder_wayland.Base.{ℕ, ◌+◌, ◌≡◌, refl, true, false, List, [], ◌∷◌, none, some, All}
use flutter_embedder_wayland.Base.Syscall.{done, fails, eintr, eagain, retry}
use flutter_embedder_wayland.Time.{forever, set_sleep_to_next_platform_event}
use flutter_embedder_wayland.EventLoop.{EventLoop, post_task, process_events}
use flutter_embedder_wayland.EventLoop.Queue.{take_expired}
use flutter_embedder_wayland.Keyboard.Examples.{small_xkb, typing}
use flutter_embedder_wayland.Base.Int.{pos}
use flutter_embedder_wayland.Base.Text.{codes}
use flutter_embedder_wayland.Base.Atol.{atol}
use flutter_embedder_wayland.MemoryWatcher.{
  Read, chunk, Outcome, silent, warned, handle_event, read_usage, compare_usage, level_of,
}
use flutter_embedder_wayland.MainLoop.Tally.{polls, prepares, reads}
use flutter_embedder_wayland.MainLoop.Timeouts.{ppoll_without_timeout, reads_balanced}
use flutter_embedder_wayland.MainLoop.{
  handle_memory, Display, Call, prepare_read, cancel_read, dispatch_pending, flush, poll, process,
  Moment, processing, RoundInput, ready_part, round, rounds, prepare, iteration, run,
}

-- Keys are typed, and nothing else goes on.
abbrev pub display : Display ℕ ℕ
display = record {
  vsync = record { presentation_clk_id = 1; baton = 0; last_frame = 1000; vblank_time_ns = 100 };
  keyboard = typing;
  watcher = record {
    levels = [];
    current_level = 0;
    memory_file_fd = none;
    last_warning_sent_ns = 0;
    event_fd = none;
  };
  presentation = false;
}

-- A task waits for the time 500.
abbrev pub delayed : EventLoop ℕ
delayed = record {
  main_thread_id = 7;
  task_queue = record { order = 1; fire_time = 500; task = 3 } ∷ [];
  last_order = 1;
}

-- The event loop was woken at time 400; then a signal interrupts `ppoll`, which fails.
abbrev pub woken : RoundInput
woken = record {
  sleep_now = 400;
  vsync_now = 400;
  memory_now = 400;
  loop_now = 400;
  ppoll = done 1 ∷ [];
  vsync_ready = false;
  display_ready = false;
  timer_ready = false;
  memory_ready = false;
  loop_ready = true;
  timer_read = [];
  vsync_read = [];
  memory_read = [];
  loop_read = done 8 ∷ [];
  usage_reads = [];
  accepts_vsync = λ call. true;
  accepts_warning = true;
}

abbrev broken : RoundInput
broken = record woken { ppoll = fails eintr ∷ fails eagain ∷ [] }

abbrev World : Type 0
World = EventLoop ℕ × Display ℕ ℕ

abbrev pub run_task : ℕ → World → World
run_task t w = w

-- The other threads do nothing.
abbrev pub alone : Moment → RoundInput → World → World
alone m i w = w

abbrev two_iterations : List (ℕ × List RoundInput)
two_iterations = (0, woken ∷ []) ∷ (1, broken ∷ []) ∷ []

abbrev calls : List Call
calls =
    prepare_read
    ∷ flush
    ∷ poll forever
    ∷ cancel_read
    ∷ process
    ∷ dispatch_pending
    ∷ dispatch_pending
    ∷ prepare_read
    ∷ flush
    ∷ poll forever
    ∷ []

-- The second `ppoll` has no timeout, though the task is due at 500.
runs : run small_xkb run_task (λ w. w) alone two_iterations (delayed, display) ≡ some (none, calls)
unfolding run iteration prepare rounds round ready_part process_events take_expired
    set_sleep_to_next_platform_event retry
runs = refl

ppoll_without_timeout_example : All (λ t. t ≡ forever) (polls calls)
ppoll_without_timeout_example =
    ppoll_without_timeout small_xkb run_task (λ w. w) alone two_iterations (delayed, display) none
      calls runs

reads_balanced_example : prepares calls ≡ 1 + reads calls
reads_balanced_example =
    reads_balanced small_xkb run_task (λ w. w) alone two_iterations (delayed, display) none calls
      runs

-- At time 600 the task is due.
abbrev late : RoundInput
late = record woken { loop_now = 600 }

-- Before the queue is locked, another thread posts the task 4 for the time 900.
abbrev post_meanwhile : Moment → RoundInput → World → World
post_meanwhile processing i w = (post_task 4 900 w.0, w.1)
post_meanwhile _ i w = w

-- What is left once the task 3 has run.
abbrev drained : EventLoop ℕ
drained = record delayed {
  task_queue = record { order = 2; fire_time = 900; task = 4 } ∷ [];
  last_order = 2;
}

abbrev late_calls : List Call
late_calls = poll forever ∷ cancel_read ∷ process ∷ []

-- The watcher has an event at some time, with some usage.
abbrev watched : ℕ → List Read → RoundInput
watched now usage = record woken {
  memory_now = now;
  memory_ready = true;
  loop_ready = false;
  memory_read = done 8 ∷ [];
  usage_reads = usage;
}

-- Events at 10 s, when it is too early, at 25 s, at 26 s, and at 45 s exactly.
abbrev four_events : List (ℕ × List RoundInput)
four_events =
    (0, watched 10_000_000_000 [] ∷ [])
    ∷ (0, watched 25_000_000_000 (chunk (codes "150") ∷ chunk [] ∷ []) ∷ [])
    ∷ (0, watched 26_000_000_000 (chunk (codes "250") ∷ chunk [] ∷ []) ∷ [])
    ∷ (0, watched 45_000_000_000 (chunk (codes "250") ∷ chunk [] ∷ []) ∷ [])
    ∷ []

-- Levels of 100 and 200 bytes; the last warning was sent at 5 s.
abbrev watching_at : ℕ → ℕ → Display ℕ ℕ
watching_at level last = record display {
  watcher = record {
    levels = pos 100 ∷ pos 200 ∷ [];
    current_level = level;
    memory_file_fd = some 10;
    last_warning_sent_ns = last;
    event_fd = some 11;
  };
}

abbrev watched_calls : ℕ → Outcome → List Call → List Call
watched_calls now outcome rest =
    prepare_read
    ∷ flush
    ∷ poll forever
    ∷ cancel_read
    ∷ handle_memory now outcome
    ∷ dispatch_pending
    ∷ rest

abbrev warning_calls : List Call
warning_calls = watched_calls 10_000_000_000 silent (
    watched_calls 25_000_000_000 warned
      (watched_calls 26_000_000_000 silent (watched_calls 45_000_000_000 warned [])))

two_warnings :
    run small_xkb run_task (λ w. w) alone four_events (delayed, watching_at 0 5_000_000_000)
    ≡ some (some (delayed, watching_at 2 45_000_000_000), warning_calls)
unfolding run iteration prepare rounds round ready_part set_sleep_to_next_platform_event retry
    handle_event read_usage compare_usage level_of atol
two_warnings = refl
