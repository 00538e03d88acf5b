-- ===== src/Entry/Running.antt =====
-- What the main loop of the program keeps from its start on.
use flutter_embedder_wayland.Base.{
  ℕ, ◌≡◌, refl, Bool, true, false, List, [], ◌∷◌, ◌++◌, map, Option, none, some, arith,
  if◌then◌else◌,
}
use flutter_embedder_wayland.Base.Text.{Bytes, codes}
use flutter_embedder_wayland.EventLoop
use flutter_embedder_wayland.EventLoop.{EventLoop}
use flutter_embedder_wayland.Keyboard
use flutter_embedder_wayland.Keyboard.XkbCommon.{Xkb}
use flutter_embedder_wayland.MemoryWatcher
use flutter_embedder_wayland.MemoryWatcher.Setup.Level.{setup-Stays}
use flutter_embedder_wayland.Files.{asset_bundle_is_valid, get_env_string}
use flutter_embedder_wayland.Lifecycle.{Members, Started, exits, returns, construct}
use flutter_embedder_wayland.MainLoop.Listeners.{Changed, IsSound, Changed-IsSound}
use flutter_embedder_wayland.MainLoop.Invariant.{run-IsSound}
use flutter_embedder_wayland.MainLoop.{Display, Call, RoundInput, run, Moment}
use flutter_embedder_wayland.Entry.{
  use_display, Outside, answers_of, grabs_keyboard, grab_keyboard, loop_call, LaunchCall,
  print_usage, preamble, add_frame_listener, Result, returned, exited, fault, no_answer,
  still_running, alive, start_world, run_display, launch, process_of, main,
}

module _ {Keymap State T Double : Type 0} (xkb : Xkb Keymap State)
    (on_task_expired : T → EventLoop T × Display Keymap State → EventLoop T × Display Keymap State)
    (dispatch : EventLoop T × Display Keymap State → EventLoop T × Display Keymap State)
    (threads : Moment
      → RoundInput
      → EventLoop T × Display Keymap State
      → EventLoop T × Display Keymap State)
    (tasks : (t : T) (w : EventLoop T × Display Keymap State) → Changed xkb w (on_task_expired t w))
    (listeners : (w : EventLoop T × Display Keymap State) → Changed xkb w (dispatch w))
    (others : (m : Moment) (i : RoundInput) (w : EventLoop T × Display Keymap State)
      → Changed xkb w (threads m i w))
    (o : Outside Double) where
  abbrev World : Type 0
  World = EventLoop T × Display Keymap State

  start_world-IsSound : IsSound xkb (start_world xkb on_task_expired dispatch threads o)
  unfolding start_world EventLoop.new Keyboard.new MemoryWatcher.new
  start_world-IsSound =
      let path =
        get_env_string o.getenv (some (codes "FLUTTER_LAUNCHER_WAYLAND_CGROUP_MEMORY_PATH")) [] in
      let levels =
        get_env_string o.getenv
          (some (codes "FLUTTER_LAUNCHER_WAYLAND_MEMORY_WARNING_WATERMARK_BYTES")) [] in
      record {
        ordered = tt;
        level = omega (arith, (setup-Stays o.os path levels MemoryWatcher.new).level);
        press = λ differs. absurd (differs refl);
      }

  abbrev ResultSound : Result World × List LaunchCall → Type 0
  ResultSound (still_running w, calls) = IsSound xkb w
  ResultSound (_, calls) = Unit {0}

  run_display-ResultSound :
      (valid : Bool) (iterations : List (ℕ × List RoundInput)) (w : World)
      → IsSound xkb w
      → ResultSound (run_display xkb on_task_expired dispatch threads o valid iterations w)
  unfolding run_display
  run_display-ResultSound valid iterations w h =
      go (run xkb on_task_expired dispatch threads iterations w) refl
    where
      begin : List LaunchCall
      begin = add_frame_listener ∷ (if grabs_keyboard o then grab_keyboard ∷ [] else [])

      go :
          (e : Option (Option World × List Call))
          → run xkb on_task_expired dispatch threads iterations w ≡ e
          → ResultSound (
              if valid
              then elim e [
                | none ↦ (no_answer, begin)
                | some (none, more) ↦ (returned false, begin ++ map loop_call more)
                | some (some w', more) ↦ (still_running w', begin ++ map loop_call more)
              ]
              else (returned false, []))
      go none e = ground arith
      go (some (none, more)) e = ground arith
      go (some (some w', more)) e =
          let s =
            run-IsSound xkb on_task_expired dispatch threads tasks listeners others iterations w w'
              more h e in
          ground arith

  launch-ResultSound :
      (meanwhile : World → World) (iterations : List (ℕ × List RoundInput)) (argv : List Bytes)
      → ((w : World) → Changed xkb w (meanwhile w))
      → ResultSound (launch xkb on_task_expired dispatch threads o meanwhile iterations argv)
  unfolding launch use_display
  launch-ResultSound meanwhile iterations [] c = tt
  launch-ResultSound meanwhile iterations (program ∷ []) c = tt
  launch-ResultSound meanwhile iterations (program ∷ path ∷ flags) c =
      let start = start_world xkb on_task_expired dispatch threads o in
      let s : IsSound xkb (meanwhile start) =
        Changed-IsSound xkb start (meanwhile start) (c start) start_world-IsSound in
      go (asset_bundle_is_valid o.sources.can_read path) (construct 1920 1080 (answers_of o path))
        (λ m. run_display-ResultSound m.valid iterations (meanwhile start) s)
    where
      args : List LaunchCall
      args = preamble o path (path ∷ flags)

      entered :
          (m : Members) (p : Result World × List LaunchCall)
          → ResultSound p
          → let (r, calls) = use_display xkb on_task_expired dispatch threads o m p in
            ResultSound (r, args ++ calls)
      entered m (returned ok, cs) k = ground arith
      entered m (exited, cs) k = ground arith
      entered m (fault, cs) k = ground arith
      entered m (no_answer, cs) k = ground arith
      entered m (still_running w, cs) k = ground arith

      enter : Members → Result World × List LaunchCall
      enter m =
          run_display xkb on_task_expired dispatch threads o m.valid iterations
            (meanwhile (start_world xkb on_task_expired dispatch threads o))

      go :
          (b : Bool) (s : Started)
          → ((m : Members) → ResultSound (enter m))
          → ResultSound (
              if b
              then elim s [
                | exits ↦ (exited, args)
                | returns ok m ↦
                    let (r, calls) =
                      use_display xkb on_task_expired dispatch threads o m (enter m) in
                    (r, args ++ calls)
              ]
              else (returned false, print_usage ∷ []))
      go false s k = tt
      go true exits k = tt
      go true (returns ok m) k = entered m (enter m) (k m)

  -- If the listeners, the tasks of the engine and its threads, before and during `Run`, only make the changes that
  -- `Changed` lists, in which `timerfd_settime` succeeds, then a program that still runs, after any number of iterations of the main loop
  -- and from any start, is in a sound state: the queue of the event loop is ordered, the memory
  -- watcher is in the range of its levels, and if the timer of the key repetition runs, the last key
  -- event was a press.
  pub main-IsSound :
      (meanwhile : World → World) (iterations : List (ℕ × List RoundInput)) (argv : List Bytes)
      (w : World)
      → ((v : World) → Changed xkb v (meanwhile v))
      → (main xkb on_task_expired dispatch threads o meanwhile iterations argv).0 ≡ alive w
      → IsSound xkb w
  unfolding main process_of
  main-IsSound meanwhile iterations argv w c e =
      go (launch xkb on_task_expired dispatch threads o meanwhile iterations argv)
        (launch-ResultSound meanwhile iterations argv c) e
    where
      go :
          (p : Result World × List LaunchCall)
          → ResultSound p
          → process_of xkb on_task_expired dispatch threads o p.0 ≡ alive w
          → IsSound xkb w
      go (returned ok, cs) k e = absurd (cc)
      go (exited, cs) k e = absurd (cc)
      go (fault, cs) k e = absurd (cc)
      go (no_answer, cs) k e = absurd (cc)
      go (still_running v, cs) k e = ground arith
