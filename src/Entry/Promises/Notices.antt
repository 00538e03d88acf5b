-- ===== src/Entry/Promises/Notices.antt =====
-- The warnings and the frames that the engine is told of over the life of the program.
use flutter_embedder_wayland.Base.{
  ℕ, ◌+◌, ◌*◌, ◌^◌, ◌<◌, ◌≡◌, ◌∙◌, subst, ap, List, [], some, arith, All,
}
use flutter_embedder_wayland.Base.Text.{Bytes, codes}
use flutter_embedder_wayland.EventLoop.{EventLoop}
use flutter_embedder_wayland.Vsync
use flutter_embedder_wayland.MemoryWatcher
use flutter_embedder_wayland.MemoryWatcher.{cooldown}
use flutter_embedder_wayland.MemoryWatcher.Warnings.{IsSpaced}
use flutter_embedder_wayland.MemoryWatcher.Setup.Level.{setup-Stays}
use flutter_embedder_wayland.Keyboard.XkbCommon.{Xkb}
use flutter_embedder_wayland.Files.{get_env_string}
use flutter_embedder_wayland.MainLoop.Listeners.{Changed, Changed-watcher}
use flutter_embedder_wayland.MainLoop.Warnings.{warnings, run_warnings-IsSpaced}
use flutter_embedder_wayland.MainLoop.Frames.{
  longest, AreFrames, RatesFit, HasPeriod, Changed-HasPeriod, run-AreFrames,
}
use flutter_embedder_wayland.MainLoop.{Display, RoundInput, Moment}
use flutter_embedder_wayland.Entry.{Outside, start_world, main}
use flutter_embedder_wayland.Entry.Promises.{loop_calls, main-Says}

module _ {Keymap State T Double : Type 0} (xkb : Xkb Keymap State)
    (on_task_expired : T → EventLoop T × Display Keymap State → EventLoop T × Display Keymap State)
    (dispatch : EventLoop T × Display Keymap State → EventLoop T × Display Keymap State)
    (threads : Moment
      → RoundInput
      → EventLoop T × Display Keymap State
      → EventLoop T × Display Keymap State)
    (tasks : (t : T) (w : EventLoop T × Display Keymap State) → Changed xkb w (on_task_expired t w))
    (listeners : (w : EventLoop T × Display Keymap State) → Changed xkb w (dispatch w))
    (others : (m : Moment) (i : RoundInput) (w : EventLoop T × Display Keymap State)
      → Changed xkb w (threads m i w))
    (o : Outside Double)
    (meanwhile : EventLoop T × Display Keymap State → EventLoop T × Display Keymap State)
    (before : (w : EventLoop T × Display Keymap State) → Changed xkb w (meanwhile w)) where
  no_warning_yet :
      (meanwhile
        (start_world xkb on_task_expired dispatch threads o)).1.watcher.last_warning_sent_ns
      ≡ 0
  unfolding start_world MemoryWatcher.new
  no_warning_yet =
      let path =
        get_env_string o.getenv (some (codes "FLUTTER_LAUNCHER_WAYLAND_CGROUP_MEMORY_PATH")) [] in
      let levels =
        get_env_string o.getenv
          (some (codes "FLUTTER_LAUNCHER_WAYLAND_MEMORY_WARNING_WATERMARK_BYTES")) [] in
      let first = start_world xkb on_task_expired dispatch threads o in
      ap (λ w. w.last_warning_sent_ns) (Changed-watcher xkb first (meanwhile first) (before first))
      ∙ (setup-Stays o.os path levels MemoryWatcher.new).last_warning

  sixty_hertz : HasPeriod xkb (start_world xkb on_task_expired dispatch threads o)
  unfolding start_world Vsync.new
  sixty_hertz = (omega arith, omega arith)

  -- Over the whole life of the program, if the listeners, the tasks of the engine and its threads,
  -- before and during `Run`, only make the changes that `Changed` lists (where `timerfd_settime` succeeds), and the clock is read for the watcher more
  -- than 20 s below 2 ^ 64: the warnings of low memory that the engine takes are at least 20 s apart,
  -- and the first comes at least 20 s after the clock's zero.
  pub main-warnings-IsSpaced :
      (iterations : List (ℕ × List RoundInput)) (argv : List Bytes)
      → All (λ iteration. All (λ i. i.memory_now + cooldown < 2 ^ 64) iteration.1) iterations
      → IsSpaced 0 (
          warnings
            (loop_calls (main xkb on_task_expired dispatch threads o meanwhile iterations argv).1))
  main-warnings-IsSpaced iterations argv b =
      let start = meanwhile (start_world xkb on_task_expired dispatch threads o) in
      main-Says xkb on_task_expired dispatch threads o iterations
        (λ end cs. IsSpaced 0 (warnings cs)) meanwhile argv
        (record {
          of_none = tt;
          of_run = λ end cs e.
              subst (λ last. IsSpaced last (warnings cs)) no_warning_yet
                (run_warnings-IsSpaced xkb on_task_expired dispatch threads tasks listeners others
                  iterations start end cs b (rw no_warning_yet (omega arith)) e);
        })

  -- Over the whole life of the program, if the listeners, the tasks of the engine and its threads,
  -- before and during `Run`, only make the changes that `Changed` lists (where `timerfd_settime` succeeds), with positive refresh rates in `int32_t`,
  -- and the clock is more than 2000 s below 2 ^ 64 where `vSyncHandler` reads it: each frame that the engine is told of has a baton, starts after the time that was read and at most
  -- 1000 s later, and its target is at least 465 ns and at most 1000 s after its start.
  pub main-AreFrames :
      ((t : T) (w : EventLoop T × Display Keymap State) → RatesFit xkb (tasks t w))
      → ((w : EventLoop T × Display Keymap State) → RatesFit xkb (listeners w))
      → ((m : Moment) (i : RoundInput) (w : EventLoop T × Display Keymap State)
          → RatesFit xkb (others m i w))
      → ((w : EventLoop T × Display Keymap State) → RatesFit xkb (before w))
      → (iterations : List (ℕ × List RoundInput)) (argv : List Bytes)
      → All (λ iteration. All (λ i. i.vsync_now + 2 * longest < 2 ^ 64) iteration.1) iterations
      → AreFrames
          (loop_calls (main xkb on_task_expired dispatch threads o meanwhile iterations argv).1)
  main-AreFrames tasks_fit listeners_fit others_fit before_fit iterations argv b =
      let first = start_world xkb on_task_expired dispatch threads o in
      let period =
        Changed-HasPeriod xkb first (meanwhile first) (before first) (before_fit first)
          sixty_hertz in
      main-Says xkb on_task_expired dispatch threads o iterations (λ end cs. AreFrames cs) meanwhile
        argv
        (record {
          of_none = tt;
          of_run = λ end cs e.
              run-AreFrames xkb on_task_expired dispatch threads tasks listeners others tasks_fit
                listeners_fit others_fit iterations (meanwhile first) end cs b period e;
        })
