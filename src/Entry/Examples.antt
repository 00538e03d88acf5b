-- ===== src/Entry/Examples.antt =====
-- A start of the program, up to its main loop.
use flutter_embedder_wayland.Base.{
  arith, ℕ, ◌≡◌, refl, true, false, List, [], ◌∷◌, none, some, ◌==◌, length,
}
use flutter_embedder_wayland.Base.Text.{Bytes, codes}
use flutter_embedder_wayland.Base.Syscall.{done, retry}
use flutter_embedder_wayland.EventLoop.{EventLoop, process_events, post_task}
use flutter_embedder_wayland.Vsync.{presentation_clock_id}
use flutter_embedder_wayland.Locale.{split_last, parse_locale, no_locale}
use flutter_embedder_wayland.EventLoop
use flutter_embedder_wayland.Vsync
use flutter_embedder_wayland.Keyboard
use flutter_embedder_wayland.MemoryWatcher
use flutter_embedder_wayland.MemoryWatcher.Setup.{setup}
use flutter_embedder_wayland.EventLoop.Queue.{take_expired, push}
use flutter_embedder_wayland.Keyboard.Examples.{small_xkb}
use flutter_embedder_wayland.Registry.{on_globals, on_global}
use flutter_embedder_wayland.Files.{asset_bundle_is_valid, get_env_string, icu_data_path}
use flutter_embedder_wayland.Lifecycle.{construct}
use flutter_embedder_wayland.MainLoop.Listeners.{IsSound, unchanged, then_clock, then_post}
use flutter_embedder_wayland.MainLoop.{
  Display, Moment, RoundInput, run, iteration, prepare, rounds, round, ready_part,
}
use flutter_embedder_wayland.Entry.{
  Outside, print_usage, exit_status, alive, start_world, main, launch,
}
use flutter_embedder_wayland.Entry.Calls.{usages, starts, initializations, count}
use flutter_embedder_wayland.Entry.Ready.{asks_for_help, is_ready}
use flutter_embedder_wayland.Entry.Launch.{main_lem}
use flutter_embedder_wayland.Elf.{aot_load_elf}
use flutter_embedder_wayland.Engine.{ProjectArgs, engine_args}
use flutter_embedder_wayland.Engine.Arguments.{Given}
use flutter_embedder_wayland.Entry.Given.{main-Given}
use flutter_embedder_wayland.Lifecycle.{Members}
use flutter_embedder_wayland.Entry.Running.{main-IsSound}

abbrev pub outside : Outside ℕ
outside = record {
  getenv = λ name. none;
  sources = record {
    can_read = λ path. true;
    opens = λ path. true;
    readlink = λ path size. some (codes "/opt/ui/launcher");
    pid = 7;
    eventfd = true;
    runs_aot = true;
    dlopen = λ path. 5;
    dlsym = λ fd name. length name;
    strerror = 99;
  };
  main_thread_id = 1;
  globals = (3, codes "wl_compositor") ∷ (5, codes "wl_shell") ∷ [];
  later_globals = (8, codes "wl_output") ∷ [];
  later_keymap = true;
  answers = record {
    socketpair = true;
    timerfd = true;
    connect = true;
    get_registry = true;
    compositor = false;
    shell = false;
    seat = false;
    output = false;
    presentation = false;
    kbd_grab_manager = false;
    egl = record {
      get_display = true;
      initialize = true;
      bind_api = true;
      choose_config = true;
      has_config = true;
      create_context = true;
      create_surface = true;
      get_shell_surface = true;
      create_window = true;
      create_resource_context = true;
      create_resource_surface = true;
      create_window_surface = true;
    };
    engine = record {
      icu_found = false;
      eventfd = false;
      runs_aot = false;
      aot_exists = false;
      aot_loaded = false;
      initialized = true;
      run = true;
      has_language = false;
      locales_updated = false;
      metrics_skipped = false;
      metrics_sent = false;
    };
  };
  os = record {
    open_read = λ path. none;
    open_write = λ path. none;
    eventfd = none;
    write = λ fd line. true;
  };
  atof = length;
  zero_double = 0;
  is_zero = λ x. x == 0;
}

-- The loop is woken, and nothing is due.
abbrev pub woken : RoundInput
woken = record {
  sleep_now = 400;
  vsync_now = 400;
  memory_now = 400;
  loop_now = 400;
  ppoll = done 1 ∷ [];
  vsync_ready = false;
  display_ready = false;
  timer_ready = false;
  memory_ready = false;
  loop_ready = true;
  timer_read = [];
  vsync_read = [];
  memory_read = [];
  loop_read = done 8 ∷ [];
  usage_reads = [];
  accepts_vsync = λ call. true;
  accepts_warning = true;
}

abbrev pub World : Type 0
World = EventLoop ℕ × Display ℕ ℕ

abbrev pub run_task : ℕ → World → World
run_task t w = w

-- The other threads do nothing.
abbrev pub alone : Moment → RoundInput → World → World
alone m i w = w

abbrev pub argv : List Bytes
argv = codes "launcher" ∷ codes "/app" ∷ []

abbrev one_iteration : List (ℕ × List RoundInput)
one_iteration = (0, woken ∷ []) ∷ []

-- Each dispatch tells the clock 1.
abbrev pub tell_clock : World → World
tell_clock w = (w.0, record w.1 { vsync = presentation_clock_id 1 w.1.vsync })

-- The engine posts the task 9 for the time 500 at its start.
abbrev post_first : World → World
post_first w = (post_task 9 500 w.0, w.1)

abbrev after_one : World
after_one = tell_clock (post_first (start_world small_xkb run_task tell_clock alone outside))

is_alive :
    (main small_xkb run_task tell_clock alone outside post_first one_iteration argv).0
    ≡ alive after_one
unfolding main asset_bundle_is_valid construct on_globals on_global icu_data_path split_last
    parse_locale get_env_string no_locale run iteration rounds round retry ready_part process_events
    take_expired prepare post_task push EventLoop.new Vsync.new Keyboard.new MemoryWatcher.new setup
    aot_load_elf engine_args
is_alive = refl

main-IsSound_example : IsSound small_xkb after_one
main-IsSound_example =
    main-IsSound small_xkb run_task tell_clock alone (λ t w. unchanged)
      (λ w. then_clock 1 unchanged) (λ m i w. unchanged) outside post_first one_iteration argv
      after_one (λ w. then_post 9 500 unchanged) is_alive

main_lem_example :
    let (process, calls) = main small_xkb run_task tell_clock alone outside post_first [] argv in
    (usages calls ≡ count (asks_for_help outside argv))
    × (starts calls ≡ count (is_ready outside argv))
    × ((n : ℕ) → process ≡ exit_status n → n ≡ 1)
    × (is_ready outside argv ≡ false → process ≡ exit_status 1)
main_lem_example =
    main_lem small_xkb run_task tell_clock alone outside post_first [] (codes "launcher")
      (codes "/app" ∷ [])

-- Without a path, the usage is printed and the status is 1.
without_path :
    main small_xkb run_task tell_clock alone outside post_first [] (codes "launcher" ∷ [])
    ≡ (exit_status 1, print_usage ∷ [])
unfolding main launch
without_path = refl

run_begins :
    starts (main small_xkb run_task tell_clock alone outside post_first one_iteration argv).1 ≡ 1
unfolding main asset_bundle_is_valid construct on_globals on_global icu_data_path split_last
    parse_locale get_env_string no_locale run iteration rounds round retry ready_part process_events
    take_expired prepare post_task push EventLoop.new Vsync.new Keyboard.new MemoryWatcher.new setup
    aot_load_elf engine_args
run_begins = refl

main-Given_example :
    let calls =
      (main small_xkb run_task tell_clock alone outside post_first one_iteration argv).1 in
    (asset_bundle_is_valid (λ path. true) (codes "/app") ≡ true)
    × ((a : ProjectArgs) × (initializations calls ≡ a ∷ [])
        × Given outside.sources (codes "/app") (codes "/app" ∷ []) a)
main-Given_example =
    main-Given small_xkb run_task tell_clock alone outside post_first one_iteration
      (codes "launcher") (codes "/app") [] (omega arith) run_begins

-- The members of the display that `outside` makes.
abbrev made : Members
made = record {
  valid = true;
  display = true;
  registry = true;
  compositor = true;
  shell = true;
  seat = false;
  output = false;
  shell_surface = true;
  surface = true;
  window = true;
  egl_display = true;
  egl_surface = true;
  egl_context = true;
  resource_egl_surface = true;
  resource_egl_context = true;
  engine = true;
  presentation = false;
  kbd_grab_manager = false;
  vsync_sockets = true;
  key_timer = true;
  event_loop_fd = true;
  xkb_state = false;
}

-- The socket of the vsync breaks.
abbrev broken : RoundInput
broken = record woken { vsync_ready = true; vsync_read = done 0 ∷ [] }
