-- ===== src/Entry/Promises/Examples.antt =====
-- Lives of the program with warnings of low memory and with a frame.
use flutter_embedder_wayland.Base.{
  ℕ, ◌≡◌, refl, true, false, List, [], ◌∷◌, Option, none, some, arith, length, ◌==◌, ◌||◌,
  if◌then◌else◌,
}
use flutter_embedder_wayland.Base.Atol.{atol}
use flutter_embedder_wayland.Base.Syscall.{done, retry}
use flutter_embedder_wayland.Base.Text.{codes}
use flutter_embedder_wayland.EventLoop
use flutter_embedder_wayland.EventLoop.{EventLoop, process_events, post_task}
use flutter_embedder_wayland.EventLoop.Queue.{take_expired}
use flutter_embedder_wayland.Vsync
use flutter_embedder_wayland.Vsync.{
  Vsync, presentation_clock_id, store_baton, vsync_handler, vsync_notify_data, frame_times,
}
use flutter_embedder_wayland.Keyboard
use flutter_embedder_wayland.Keyboard.Examples.{small_xkb}
use flutter_embedder_wayland.MemoryWatcher
use flutter_embedder_wayland.MemoryWatcher.{
  Read, chunk, handle_event, read_usage, compare_usage, level_of,
}
use flutter_embedder_wayland.MemoryWatcher.Setup.{setup}
use flutter_embedder_wayland.MemoryWatcher.Warnings.{IsSpaced}
use flutter_embedder_wayland.Locale.{split_last, parse_locale, no_locale}
use flutter_embedder_wayland.Files.{asset_bundle_is_valid, get_env_string, icu_data_path}
use flutter_embedder_wayland.Elf.{aot_load_elf}
use flutter_embedder_wayland.Engine.{engine_args}
use flutter_embedder_wayland.Registry.{on_globals, on_global}
use flutter_embedder_wayland.Lifecycle.{construct}
use flutter_embedder_wayland.MainLoop.Listeners.{
  Changed, unchanged, then_baton, then_clock, then_post,
}
use flutter_embedder_wayland.MainLoop.Warnings.{warnings}
use flutter_embedder_wayland.MainLoop.Frames.{frames, AreFrames, RatesFit}
use flutter_embedder_wayland.MainLoop.{
  Moment, polling, handling, processing, RoundInput, run, iteration, prepare, rounds, round,
  ready_part,
}
use flutter_embedder_wayland.Entry.{Outside, main}
use flutter_embedder_wayland.Entry.Examples.{
  outside, woken, run_task, argv, tell_clock, alone, World,
}
use flutter_embedder_wayland.MainLoop.History.{History}
use flutter_embedder_wayland.MainLoop.History.Batons.{returned}
use flutter_embedder_wayland.Entry.Promises.{loop_calls}
use flutter_embedder_wayland.Entry.Promises.Notices.{main-warnings-IsSpaced, main-AreFrames}

-- The two variables of the memory watcher, told by their length, are 100, and the files of the memory
-- can be opened.
abbrev watching : Outside ℕ
watching = record outside {
  getenv = λ name. if length name == 43 || length name == 55 then some (codes "100") else none;
  os = record {
    open_read = λ path. some 10;
    open_write = λ path. some 12;
    eventfd = some 11;
    write = λ fd line. true;
  };
}

-- The watcher has an event at some time, with some usage.
abbrev watched : ℕ → List Read → ℕ × List RoundInput
watched now usage = (
  0,
  record woken {
    memory_now = now;
    memory_ready = true;
    loop_ready = false;
    memory_read = done 8 ∷ [];
    usage_reads = usage;
  }
      ∷ [],
)

-- The usage passes the level of 100 at 25 s, falls below it and passes it again.
abbrev four_events : List (ℕ × List RoundInput)
four_events =
    watched 10_000_000_000 []
    ∷ watched 25_000_000_000 (chunk (codes "150") ∷ chunk [] ∷ [])
    ∷ watched 46_000_000_000 (chunk (codes "50") ∷ chunk [] ∷ [])
    ∷ watched 47_000_000_000 (chunk (codes "150") ∷ chunk [] ∷ [])
    ∷ []

two_warnings :
    warnings
      (loop_calls (main small_xkb run_task tell_clock alone watching (λ w. w) four_events argv).1)
    ≡ 25_000_000_000 ∷ 47_000_000_000 ∷ []
unfolding main asset_bundle_is_valid construct on_globals on_global icu_data_path split_last
    parse_locale get_env_string no_locale run iteration rounds round retry ready_part process_events
    take_expired prepare EventLoop.new Vsync.new Keyboard.new MemoryWatcher.new setup aot_load_elf
    engine_args handle_event read_usage compare_usage level_of atol
two_warnings = refl

main-warnings-IsSpaced_example : IsSpaced 0 (
    warnings
      (loop_calls (main small_xkb run_task tell_clock alone watching (λ w. w) four_events argv).1))
main-warnings-IsSpaced_example =
    main-warnings-IsSpaced small_xkb run_task tell_clock alone (λ t w. unchanged)
      (λ w. then_clock 1 unchanged) (λ m i w. unchanged) watching (λ w. w) (λ w. unchanged)
      four_events argv (ground arith)

-- The engine asks for a frame at its start, if no baton waits.
abbrev store_first : Option Vsync → World → World
store_first none w = w
store_first (some v) w = (w.0, record w.1 { vsync = v })

abbrev ask_first : World → World
ask_first w = store_first (store_baton 77 w.1.vsync) w

store_first-Changed :
    (w : World) (s : Option Vsync)
    → store_baton 77 w.1.vsync ≡ s
    → (c : Changed small_xkb w (store_first s w)) × RatesFit small_xkb c
store_first-Changed w none e = (unchanged, tt)
store_first-Changed w (some v) e = (then_baton 77 v unchanged e, tt)

-- The notice of the baton is read at time 400.
abbrev noticed : RoundInput
noticed = record woken { vsync_ready = true; vsync_read = done 1 ∷ []; loop_ready = false }

abbrev one_frame : List (ℕ × List RoundInput)
one_frame = (0, noticed ∷ woken ∷ []) ∷ []

-- Two notices one after the other, without a presentation clock: the engine asks for the next frame
-- while `ppoll` waits.
abbrev two_frames : List (ℕ × List RoundInput)
two_frames = (0, noticed ∷ record noticed { vsync_now = 20_000_000 } ∷ woken ∷ []) ∷ []

abbrev asking : Moment → RoundInput → World → World
asking polling i w = ask_first w
asking handling i w = w
asking processing i w = w

abbrev asking-Changed :
    (m : Moment) (i : RoundInput) (w : World)
    → (c : Changed small_xkb w (asking m i w)) × RatesFit small_xkb c
asking-Changed polling i w = store_first-Changed w (store_baton 77 w.1.vsync) refl
asking-Changed handling i w = (unchanged, tt)
asking-Changed processing i w = (unchanged, tt)

both_frames :
    frames
      (loop_calls (main small_xkb run_task tell_clock asking outside (λ w. w) two_frames argv).1)
    ≡ (400, record { baton = 77; frame_start_ns = 16_666_666; frame_target_ns = 33_333_332 })
      ∷ (
        20_000_000,
        record { baton = 77; frame_start_ns = 33_333_332; frame_target_ns = 49_999_998 },
      )
      ∷ []
unfolding main asset_bundle_is_valid construct on_globals on_global icu_data_path split_last
    parse_locale get_env_string no_locale run iteration rounds round retry ready_part process_events
    take_expired prepare EventLoop.new Vsync.new Keyboard.new MemoryWatcher.new setup aot_load_elf
    engine_args store_baton vsync_handler vsync_notify_data frame_times
both_frames = refl

main-AreFrames_example :
    AreFrames
      (loop_calls (main small_xkb run_task tell_clock asking outside (λ w. w) two_frames argv).1)
main-AreFrames_example =
    main-AreFrames small_xkb run_task tell_clock asking (λ t w. unchanged)
      (λ w. then_clock 1 unchanged) (λ m i w. (asking-Changed m i w).0) outside (λ w. w)
      (λ w. unchanged) (λ t w. tt) (λ w. tt) (λ m i w. (asking-Changed m i w).1) (λ w. tt)
      two_frames argv (ground arith)

-- The engine asks for a frame and posts the task 9 for the time 300 at its start.
abbrev ask_and_post : World → World
ask_and_post w = (post_task 9 300 (ask_first w).0, (ask_first w).1)

abbrev asked_and_posted : (w : World) → Changed small_xkb w (ask_and_post w)
asked_and_posted w = then_post 9 300 (store_first-Changed w (store_baton 77 w.1.vsync) refl).0

-- The frame is announced, and the task is run.
accounts_settled :
    let calls =
      loop_calls (main small_xkb run_task tell_clock alone outside ask_and_post one_frame argv).1 in
    returned calls ≡ 77 ∷ []
unfolding main asset_bundle_is_valid construct on_globals on_global icu_data_path split_last
    parse_locale get_env_string no_locale run iteration rounds round retry ready_part process_events
    take_expired prepare EventLoop.new Vsync.new Keyboard.new MemoryWatcher.new setup aot_load_elf
    engine_args store_baton vsync_handler vsync_notify_data frame_times
accounts_settled = refl
