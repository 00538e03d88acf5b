-- ===== src/Entry.antt =====
-- src/main.cc, and what stands between it and the main loop in src/wayland_display.cc: the first
-- lines of `Run` and `ConfigurePlatformTaskRunner`. `Main` is composed of the other parts: the check
-- of the bundle, the constructor with the globals of the registry, and the loop.
pub mod Calls
pub mod Ready
pub mod Launch
pub mod Running
pub mod Given
pub mod Release
pub mod Promises
mod Examples
use flutter_embedder_wayland.Base.{
  ℕ, Bool, true, false, ◌||◌, not, List, [], ◌∷◌, ◌++◌, map, Option, none, some, if◌then◌else◌,
}
use flutter_embedder_wayland.Base.Text.{Bytes, codes}
use flutter_embedder_wayland.EventLoop.{EventLoop, new, runs_tasks_on_current_thread, post_task}
use flutter_embedder_wayland.Vsync
use flutter_embedder_wayland.Keyboard
use flutter_embedder_wayland.Keyboard.XkbCommon.{Xkb}
use flutter_embedder_wayland.MemoryWatcher
use flutter_embedder_wayland.MemoryWatcher.Setup.{Os, setup}
use flutter_embedder_wayland.Locale.{parse_locale}
use flutter_embedder_wayland.Files.{
  get_env_string, get_env_double, icu_data_path, asset_bundle_is_valid,
}
use flutter_embedder_wayland.Elf.{no_snapshots, aot_load_elf}
use flutter_embedder_wayland.Engine.Arguments.{is_empty}
use flutter_embedder_wayland.Engine.{Sources, ProjectArgs, libapp_aot_path, engine_args}
use flutter_embedder_wayland.Registry.{Bound, unbound, on_globals}
use flutter_embedder_wayland.Lifecycle.{
  Answers, Members, Resource, exits, returns, before_engine, construct, destruct,
}
use flutter_embedder_wayland.MainLoop.{Display, Call, RoundInput, run, Moment}

-- What the program meets at its start: the environment, what the arguments of the engine depend on,
-- the globals that the registry announces, the answers in the constructor, the system calls of the
-- memory watcher, and atof(3) with the numbers it gives. `answers` stands for those answers that the
-- other fields do not give.
pub record Outside (Double : Type 0) : Type 0 where
  pub getenv : Bytes → Option Bytes
  pub sources : Sources
  pub main_thread_id : ℕ
  pub globals : List (ℕ × Bytes)
  -- The globals that the registry announces in `Run`, and whether a keymap has come by its end.
  pub later_globals : List (ℕ × Bytes)
  pub later_keymap : Bool
  pub answers : Answers
  pub os : Os
  pub atof : Bytes → Double
  pub zero_double : Double
  pub is_zero : Double → Bool

-- What the program does besides the messages of its log; the arguments for the engine are logged.
pub data LaunchCall : Type 0 where
  print_usage : LaunchCall
  flutter_arg : Bytes → LaunchCall
  -- FlutterEngineInitialize
  initialize : ProjectArgs → LaunchCall
  -- wl_callback_add_listener on the frame, zwp_xwayland_keyboard_grab_manager_v1_grab_keyboard
  add_frame_listener grab_keyboard : LaunchCall
  loop_call : Call → LaunchCall
  -- The calls of the destructor, behind `CleanupMemoryWatcher`.
  released : Resource → LaunchCall

abbrev pub is_some {ℓ} : {A : Type ℓ} → Option A → Bool
is_some none = false
is_some (some a) = true

module _ {Double : Type 0} (o : Outside Double) where
  -- The members that the listener of the registry has set when the round trip ends.
  abbrev pub bound : Bound
  bound = (on_globals o.globals unbound).0

  -- The answers in the constructor, for the path of the bundle.
  unfoldable pub answers_of : Bytes → Answers
  answers_of bundle_path = record (o.answers) {
    compositor = is_some (bound.compositor_);
    shell = is_some (bound.shell_);
    seat = is_some (bound.seat_);
    output = is_some (bound.output_);
    presentation = is_some (bound.presentation_);
    kbd_grab_manager = is_some (bound.kbd_grab_manager_);
    engine = record (o.answers.engine) {
      icu_found = not (is_empty (icu_data_path o.sources.readlink o.sources.pid o.sources.opens));
      eventfd = o.sources.eventfd;
      runs_aot = o.sources.runs_aot;
      aot_exists = o.sources.opens (libapp_aot_path bundle_path);
      aot_loaded =
          (aot_load_elf o.sources.dlopen o.sources.dlsym o.sources.strerror
            (libapp_aot_path bundle_path) 0 0 no_snapshots).loaded;
      has_language =
          is_some (parse_locale (get_env_string o.getenv (some (codes "LANG")) [])).language_code;
    };
  }

  -- The members at the end of the scope of `display`: the registry and the keyboard go on to set them
  -- in `Run`, which only a valid display comes to. A global that is announced again takes the place
  -- of the one that the member held.
  unfoldable pub last_members : Members → Members
  last_members m =
      let later = (on_globals o.later_globals unbound).0 in
      if m.valid
      then record m {
        compositor = m.compositor || is_some (later.compositor_);
        shell = m.shell || is_some (later.shell_);
        seat = m.seat || is_some (later.seat_);
        output = m.output || is_some (later.output_);
        presentation = m.presentation || is_some (later.presentation_);
        kbd_grab_manager = m.kbd_grab_manager || is_some (later.kbd_grab_manager_);
        xkb_state = m.xkb_state || o.later_keymap;
      }
      else m

  -- `FlutterEngineInitialize`, with its arguments, if the constructor comes to it: the path of the
  -- bundle and the arguments of the program but its name are those that `Main` gives to the
  -- constructor.
  initialization : Bytes → List Bytes → List LaunchCall
  unfolding answers_of
  initialization bundle_path args =
      if (before_engine 1920 1080 (answers_of bundle_path)).0
      then elim (engine_args o.sources bundle_path args) [ none ↦ [] | some a ↦ initialize a ∷ [] ]
      else []

  -- What `Main` does before the constructor has come to its end: each argument for the engine is
  -- logged, and the constructor initializes the engine with them.
  unfoldable pub preamble : Bytes → List Bytes → List LaunchCall
  unfolding initialization
  preamble bundle_path args = map flutter_arg args ++ initialization bundle_path args

  -- The second test of `Run`: whether all keys are grabbed.
  unfoldable pub grabs_keyboard : Bool
  grabs_keyboard =
      let main_ui =
        get_env_double o.atof o.getenv (some (codes "FLUTTER_WAYLAND_MAIN_UI")) o.zero_double in
      if is_some (bound.kbd_grab_manager_) then not (o.is_zero main_ui) else false

-- The callbacks that the engine gets for the platform thread.
pub record TaskRunner (T : Type 0) : Type 0 where
  pub runs_task_on_current_thread_callback : ℕ → EventLoop T → Bool
  pub post_task_callback : T → ℕ → EventLoop T → EventLoop T

-- `ConfigurePlatformTaskRunner`; `eventfd` says whether eventfd(2) succeeds.
unfoldable pub configure_platform_task_runner :
    {T : Type 0} → Bool → ℕ → Option (EventLoop T × TaskRunner T)
configure_platform_task_runner eventfd this_thread =
    if eventfd
    then some (
      new this_thread,
      record {
        runs_task_on_current_thread_callback = runs_tasks_on_current_thread;
        post_task_callback = post_task;
      },
    )
    else none

-- How `Main` ends: it returns, or it calls `exit(1)`, or `args[1]` is out of range, or the kernel
-- never answers; or it still runs the main loop.
pub data Result (W : Type 0) : Type 0 where
  returned : Bool → Result W
  exited fault no_answer : Result W
  still_running : W → Result W

-- How the process ends.
pub data Process (W : Type 0) : Type 0 where
  exit_status : ℕ → Process W
  crashed stuck : Process W
  alive : W → Process W

module _ {Keymap State T Double : Type 0} (xkb : Xkb Keymap State)
    (on_task_expired : T → EventLoop T × Display Keymap State → EventLoop T × Display Keymap State)
    (dispatch : EventLoop T × Display Keymap State → EventLoop T × Display Keymap State)
    (threads : Moment
      → RoundInput
      → EventLoop T × Display Keymap State
      → EventLoop T × Display Keymap State)
    (o : Outside Double) where
  abbrev pub World : Type 0
  World = EventLoop T × Display Keymap State

  -- The members of the main loop as the constructor sets them up.
  unfoldable pub start_world : World
  start_world =
      let path =
        get_env_string o.getenv (some (codes "FLUTTER_LAUNCHER_WAYLAND_CGROUP_MEMORY_PATH")) [] in
      let levels =
        get_env_string o.getenv
          (some (codes "FLUTTER_LAUNCHER_WAYLAND_MEMORY_WARNING_WATERMARK_BYTES")) [] in
      (
        new o.main_thread_id,
        record {
          vsync = Vsync.new;
          keyboard = Keyboard.new xkb;
          watcher = (setup o.os path levels MemoryWatcher.new).1.0;
          presentation = is_some ((bound o).presentation_);
        },
      )

  -- `Run`, from the state `w`.
  unfoldable pub run_display :
      Bool → List (ℕ × List RoundInput) → World → Result World × List LaunchCall
  unfolding grabs_keyboard
  run_display valid iterations w =
      let calls = add_frame_listener ∷ (if grabs_keyboard o then grab_keyboard ∷ [] else []) in
      if valid
      then elim (run xkb on_task_expired dispatch threads iterations w) [
        | none ↦ (no_answer, calls)
        | some (none, more) ↦ (returned false, calls ++ map loop_call more)
        | some (some w', more) ↦ (still_running w', calls ++ map loop_call more)
      ]
      else (returned false, [])

  -- The end of the scope of `display`: its destructor, unless the process does not come there.
  leave_display : Members → Result World → List LaunchCall
  leave_display m (returned ok) = map released (destruct m)
  leave_display m _ = []

  -- `display` in `Main` once it is constructed, by the result of `Run` and its calls.
  use_display : Members → Result World × List LaunchCall → Result World × List LaunchCall
  unfolding leave_display last_members
  use_display m (result, calls) =
      if m.valid
      then (result, calls ++ leave_display (last_members o m) result)
      else (returned false, leave_display (last_members o m) (returned false))

  -- `Main`. `meanwhile` is what the threads of the engine do between its start and `Run`.
  unfoldable pub launch :
      (World → World) → List (ℕ × List RoundInput) → List Bytes → Result World × List LaunchCall
  unfolding run_display answers_of start_world use_display preamble
  launch meanwhile iterations [] = (fault, [])
  launch meanwhile iterations (program ∷ []) = (returned false, print_usage ∷ [])
  launch meanwhile iterations (program ∷ asset_bundle_path ∷ flags) =
      let flutter_args = asset_bundle_path ∷ flags in
      let begun = preamble o asset_bundle_path flutter_args in
      if asset_bundle_is_valid o.sources.can_read asset_bundle_path
      then elim (construct 1920 1080 (answers_of o asset_bundle_path)) [
        | exits ↦ (exited, begun)
        | returns ok m ↦
            let (result, calls) =
              use_display m (run_display m.valid iterations (meanwhile start_world)) in
            (result, begun ++ calls)
      ]
      else (returned false, print_usage ∷ [])

  -- `main`: EXIT_SUCCESS is 0 and EXIT_FAILURE is 1.
  process_of : Result World → Process World
  process_of (returned ok) = exit_status (if ok then 0 else 1)
  process_of exited = exit_status 1
  process_of fault = crashed
  process_of no_answer = stuck
  process_of (still_running w) = alive w

  unfoldable pub main :
      (World → World) → List (ℕ × List RoundInput) → List Bytes → Process World × List LaunchCall
  unfolding launch process_of
  main meanwhile iterations argv =
      let (result, calls) = launch meanwhile iterations argv in (process_of result, calls)
