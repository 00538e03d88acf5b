-- ===== src/Lifecycle.antt =====
-- The start and the end of a `WaylandDisplay` (src/wayland_display.cc): the constructor with
-- `SetupEGL` and `SetupEngine`, and the destructor. A member that is a pointer or a handle is a
-- Boolean here: whether it is not null; so is a descriptor, or a pair of them: whether it is open.
-- The descriptors of the memory watcher are with MemoryWatcher. The answers of the compositor, EGL, the engine and the
-- kernel are records.
pub mod Startup
pub mod Shutdown
mod Examples
use flutter_embedder_wayland.Base.{
  ℕ, ◌%◌, ◌^◌, Bool, true, false, ◌&&◌, ◌||◌, not, List, [], ◌∷◌, ◌==◌, if◌then◌else◌,
}

pub record Members : Type 0 where
  pub valid : Bool
  pub display : Bool
  pub registry : Bool
  pub compositor : Bool
  pub shell : Bool
  pub seat : Bool
  pub output : Bool
  pub shell_surface : Bool
  pub surface : Bool
  pub window : Bool
  pub egl_display : Bool
  pub egl_surface : Bool
  pub egl_context : Bool
  pub resource_egl_surface : Bool
  pub resource_egl_context : Bool
  pub engine : Bool
  pub presentation : Bool
  pub kbd_grab_manager : Bool
  pub vsync_sockets : Bool
  pub key_timer : Bool
  pub event_loop_fd : Bool
  pub xkb_state : Bool

-- The initializers of the members.
unfoldable pub new : Members
new = record {
  valid = false;
  display = false;
  registry = false;
  compositor = false;
  shell = false;
  seat = false;
  output = false;
  shell_surface = false;
  surface = false;
  window = false;
  egl_display = false;
  egl_surface = false;
  egl_context = false;
  resource_egl_surface = false;
  resource_egl_context = false;
  engine = false;
  presentation = false;
  kbd_grab_manager = false;
  vsync_sockets = false;
  key_timer = false;
  event_loop_fd = false;
  xkb_state = false;
}

-- The answers in `SetupEGL`, in the order of its calls.
pub record EglAnswers : Type 0 where
  pub get_display : Bool
  pub initialize : Bool
  pub bind_api : Bool
  pub choose_config : Bool
  pub has_config : Bool
  pub create_context : Bool
  pub create_surface : Bool
  pub get_shell_surface : Bool
  pub create_window : Bool
  pub create_resource_context : Bool
  pub create_resource_surface : Bool
  pub create_window_surface : Bool

-- `SetupEGL`: its result, and the members. Each of the tests is a return.
unfoldable pub setup_egl : EglAnswers → Members → Bool × Members
setup_egl a m =
    let m₁ : Members = record m { egl_display = a.get_display } in
    let m₂ : Members = record m₁ { egl_context = a.create_context } in
    let m₃ : Members = record m₂ { surface = a.create_surface } in
    let m₄ : Members = record m₃ { shell_surface = a.get_shell_surface } in
    let m₅ : Members = record m₄ { window = a.create_window } in
    let m₆ : Members = record m₅ {
      resource_egl_context = a.create_resource_context;
      resource_egl_surface = a.create_resource_surface;
      egl_surface = a.create_window_surface;
    } in
    if not a.get_display
    then (false, m₁)
    else if not a.initialize
    then (false, m₁)
    else if not a.bind_api
    then (false, m₁)
    else if not a.choose_config
    then (false, m₁)
    else if not a.has_config
    then (false, m₁)
    else if not a.create_context
    then (false, m₂)
    else if not m.compositor || not m.shell
    then (false, m₂)
    else if not a.create_surface
    then (false, m₃)
    else if not a.get_shell_surface
    then (false, m₄)
    else if not a.create_window
    then (false, m₅)
    else if not a.create_window_surface
    then (false, m₆)
    else (true, m₆)

-- The answers in `SetupEngine`: the data of ICU, the event descriptor of the platform task runner,
-- the precompiled application, and the calls of the engine. `metrics_skipped` is the member.
pub record EngineAnswers : Type 0 where
  pub icu_found : Bool
  pub eventfd : Bool
  pub runs_aot : Bool
  pub aot_exists : Bool
  pub aot_loaded : Bool
  pub initialized : Bool
  pub run : Bool
  pub has_language : Bool
  pub locales_updated : Bool
  pub metrics_skipped : Bool
  pub metrics_sent : Bool

-- How a part of the start ends: `exit(1)`, or its result and the members.
pub data Started : Type 0 where
  exits : Started
  returns : Bool → Members → Started

-- `SetupEngine`. An engine that was not initialized leaves no handle; the event descriptor stays.
unfoldable pub setup_engine : EngineAnswers → Members → Started
setup_engine a m =
    let m₁ : Members = record m { event_loop_fd = true } in
    let m' : Members = record m₁ { engine = true } in
    if not a.icu_found
    then returns false m
    else if not a.eventfd
    then exits
    else if (a.runs_aot && a.aot_exists) && not a.aot_loaded
    then returns false m₁
    else if not a.initialized
    then returns false m₁
    else if not a.run
    then returns false m'
    else if a.has_language && not a.locales_updated
    then returns false m'
    else if a.metrics_skipped
    then returns a.metrics_sent m'
    else returns true m'

-- The answers in the constructor. The globals are those that the registry has announced when
-- `wl_display_roundtrip` returns.
pub record Answers : Type 0 where
  pub socketpair : Bool
  pub timerfd : Bool
  pub connect : Bool
  pub get_registry : Bool
  pub compositor : Bool
  pub shell : Bool
  pub seat : Bool
  pub output : Bool
  pub presentation : Bool
  pub kbd_grab_manager : Bool
  pub egl : EglAnswers
  pub engine : EngineAnswers

-- The constructor behind `SetupEGL`.
start_engine : Answers → Bool × Members → Started
unfolding setup_engine
start_engine a (false, m) = returns false m
start_engine a (true, m) = elim (setup_engine a.engine m) [
  | exits ↦ exits
  | returns false m' ↦ returns false m'
  | returns true m' ↦ returns true (record m' { valid = true })
]

-- The constructor up to `SetupEngine`: whether it comes there, and the members. The sizes are stored
-- as `int`.
unfoldable pub before_engine : ℕ → ℕ → Answers → Bool × Members
unfolding setup_egl new
before_engine width height a =
    let sockets : Members = record new { vsync_sockets = true } in
    let timer : Members = record sockets { key_timer = true } in
    let m₁ : Members = record timer { display = a.connect } in
    let m₂ : Members = record m₁ { registry = a.get_registry } in
    let m₃ : Members = record m₂ {
      compositor = a.compositor;
      shell = a.shell;
      seat = a.seat;
      output = a.output;
      presentation = a.presentation;
      kbd_grab_manager = a.kbd_grab_manager;
    } in
    if width % 2 ^ 32 == 0 || height % 2 ^ 32 == 0
    then (false, new)
    else if not a.socketpair
    then (false, new)
    else if not a.timerfd
    then (false, sockets)
    else if not a.connect
    then (false, m₁)
    else if not a.get_registry
    then (false, m₂)
    else setup_egl a.egl m₃

-- The constructor: `exit(1)`, or `valid_` and the members.
unfoldable pub construct : ℕ → ℕ → Answers → Started
unfolding before_engine start_engine
construct width height a = start_engine a (before_engine width height a)

-- What the members hold: what the destructor releases, and behind it what nothing releases.
pub data Resource : Type 0 where
  engine shell_surface shell output seat keymap xkb_context egl_surface egl_display window surface
        compositor registry display :
      Resource
  egl_context resource_egl_surface resource_egl_context presentation kbd_grab_manager vsync_sockets
        key_timer event_loop_fd xkb_state :
      Resource

-- Guarded releases, one after the other.
release : List (Bool × Resource) → List Resource
release [] = []
release ((held, r) ∷ rows) = let rest = release rows in if held then r ∷ rest else rest

-- The tests and calls of the destructor, in order. xkb_keymap_unref and xkb_context_unref are
-- called without a test.
abbrev pub teardown : Members → List (Bool × Resource)
teardown m =
    (m.engine, engine)
    ∷ (m.shell_surface, shell_surface)
    ∷ (m.shell, shell)
    ∷ (m.output, output)
    ∷ (m.seat, seat)
    ∷ (true, keymap)
    ∷ (true, xkb_context)
    ∷ (m.egl_surface, egl_surface)
    ∷ (m.egl_display, egl_display)
    ∷ (m.window, window)
    ∷ (m.surface, surface)
    ∷ (m.compositor, compositor)
    ∷ (m.registry, registry)
    ∷ (m.display, display)
    ∷ []

-- The destructor behind `CleanupMemoryWatcher`.
unfoldable pub destruct : Members → List Resource
unfolding release
destruct m = release (teardown m)
