-- ===== src/MainLoop/Invariant.antt =====
-- What every run of the main loop keeps, whatever the kernel, the compositor and the engine do.
use flutter_embedder_wayland.Base.{ℕ, ◌≡◌, List, some, subst, All-always}
use flutter_embedder_wayland.EventLoop.Process.{take_expired-IsOrdered, process_events_keeps}
use flutter_embedder_wayland.EventLoop.{EventLoop, process_events}
use flutter_embedder_wayland.Keyboard.XkbCommon.{Xkb}
use flutter_embedder_wayland.Keyboard.Repeat.{on_timer-IsPress}
use flutter_embedder_wayland.MemoryWatcher.Range.{handle_event-IsLevel}
use flutter_embedder_wayland.MainLoop.Listeners.{
  Changed, IsSound, Changed-IsSound, with_vsync, with_keyboard,
}
use flutter_embedder_wayland.MainLoop.Traces.{Contract}
use flutter_embedder_wayland.MainLoop.Traces.Runs.{Keeps, run-Keeps}
use flutter_embedder_wayland.MainLoop.{Display, Call, RoundInput, run, Moment}

module _ {Keymap State T : Type 0} (xkb : Xkb Keymap State)
    (on_task_expired : T → EventLoop T × Display Keymap State → EventLoop T × Display Keymap State)
    (dispatch : EventLoop T × Display Keymap State → EventLoop T × Display Keymap State)
    (threads : Moment
      → RoundInput
      → EventLoop T × Display Keymap State
      → EventLoop T × Display Keymap State)
    (tasks : (t : T) (w : EventLoop T × Display Keymap State) → Changed xkb w (on_task_expired t w))
    (listeners : (w : EventLoop T × Display Keymap State) → Changed xkb w (dispatch w))
    (others : (m : Moment) (i : RoundInput) (w : EventLoop T × Display Keymap State)
      → Changed xkb w (threads m i w)) where
  abbrev World : Type 0
  World = EventLoop T × Display Keymap State

  pub dispatch-IsSound : (w : World) → IsSound xkb w → IsSound xkb (dispatch w)
  dispatch-IsSound w h = Changed-IsSound xkb w (dispatch w) (listeners w) h

  process_events-IsSound :
      (now : ℕ) (w : World) → IsSound xkb w → IsSound xkb (process_events on_task_expired now w).1
  process_events-IsSound now w h =
      process_events_keeps on_task_expired (IsSound xkb)
        (λ t v. Changed-IsSound xkb v (on_task_expired t v) (tasks t v)) now w.0 w.1
        (record {
          ordered = take_expired-IsOrdered now w.0.task_queue h.ordered;
          level = h.level;
          press = h.press;
        })

  IsSound-contract :
      Contract xkb on_task_expired dispatch threads
        (λ i. Unit {0})
        (λ u cs v. IsSound xkb u → IsSound xkb v)
        (λ u cs. Unit {0})
  IsSound-contract = record {
    stay = λ w h. h;
    join = λ u v w xs ys f g h. g (f h);
    halts = λ u v xs f. tt;
    join_halt = λ u v xs ys f g. tt;
    quiet = λ c w e h. h;
    dispatches = dispatch-IsSound;
    acts = λ m i w f. Changed-IsSound xkb w (threads m i w) (others m i w);
    repeats =
        λ w k m e h. with_keyboard xkb k w (on_timer-IsPress xkb w.1.keyboard k m e h.press) h;
    answers = λ i w b h. with_vsync xkb _ w h;
    watches = λ i w o w' f e h. record {
      ordered = h.ordered;
      level =
          handle_event-IsLevel i.accepts_warning i.memory_now i.usage_reads w.1.watcher w' o e
            h.level;
      press = h.press;
    };
    processes = λ i w f h. process_events-IsSound i.loop_now w h;
  }

  -- If the listeners, the tasks of the engine and its threads only make the changes that `Changed` lists, in which
  -- `timerfd_settime` succeeds, then any number of iterations of the main loop keeps its state sound: the queue of the event loop is
  -- ordered, the memory watcher is in the range of its levels, and if the timer of the key
  -- repetition runs, the last key event was a press.
  pub run-IsSound :
      (iterations : List (ℕ × List RoundInput)) (w w' : World) (cs : List Call)
      → IsSound xkb w
      → run xkb on_task_expired dispatch threads iterations w ≡ some (some w', cs)
      → IsSound xkb w'
  run-IsSound iterations w w' cs h e =
      let any_input =
        All-always _ (λ (p : ℕ × List RoundInput). All-always _ (λ i. tt) p.1) iterations in
      let keeps =
        run-Keeps xkb on_task_expired dispatch threads IsSound-contract iterations w any_input in
      subst (Keeps xkb on_task_expired dispatch threads IsSound-contract w) e keeps h
