-- ===== src/Entry/Promises/Accounts.antt =====
-- The batons and the tasks of the engine over the life of the program.
use mathlib.Core.List.{Perm}
use mathlib.Core.List.Perm
use flutter_embedder_wayland.Base.{ℕ, ◌≡◌, List, ◌++◌, Option}
use flutter_embedder_wayland.EventLoop
use flutter_embedder_wayland.EventLoop.{EventLoop}
use flutter_embedder_wayland.Vsync
use flutter_embedder_wayland.Keyboard.XkbCommon.{Xkb}
use flutter_embedder_wayland.MainLoop.Listeners.{Changed}
use flutter_embedder_wayland.MainLoop.History.{History, EndsAt, IsRoundOf}
use flutter_embedder_wayland.MainLoop.History.Batons.{returned, waits_in, stored_in}
use flutter_embedder_wayland.MainLoop.History.Tasks.{queued, posted_in, ran_in}
use flutter_embedder_wayland.MainLoop.History.Times.{AreOnTime}
use flutter_embedder_wayland.MainLoop.{Display, Call, RoundInput, Moment}
use flutter_embedder_wayland.Entry.{Outside, start_world}

module _ {Keymap State T Double : Type 0} (xkb : Xkb Keymap State)
    (on_task_expired : T → EventLoop T × Display Keymap State → EventLoop T × Display Keymap State)
    (dispatch : EventLoop T × Display Keymap State → EventLoop T × Display Keymap State)
    (threads : Moment
      → RoundInput
      → EventLoop T × Display Keymap State
      → EventLoop T × Display Keymap State)
    (tasks : (t : T) (w : EventLoop T × Display Keymap State) → Changed xkb w (on_task_expired t w))
    (listeners : (w : EventLoop T × Display Keymap State) → Changed xkb w (dispatch w))
    (others : (m : Moment) (i : RoundInput) (w : EventLoop T × Display Keymap State)
      → Changed xkb w (threads m i w))
    (o : Outside Double)
    (meanwhile : EventLoop T × Display Keymap State → EventLoop T × Display Keymap State)
    (before : (w : EventLoop T × Display Keymap State) → Changed xkb w (meanwhile w)) where
  abbrev World : Type 0
  World = EventLoop T × Display Keymap State

  first : World
  first = start_world xkb on_task_expired dispatch threads o

  -- With this end and these calls, from the first state of `Run`, the accounts are settled.
  abbrev Settled : List (ℕ × List RoundInput) → Option World → List Call → Type 0
  Settled its end cs =
      (v : World) × (h : History xkb on_task_expired dispatch threads (IsRoundOf its)
        (meanwhile first) cs v)
      × EndsAt end v
      × (waits_in xkb (meanwhile first)
            ++ stored_in xkb on_task_expired dispatch threads tasks listeners others h
          ≡ returned cs ++ waits_in xkb v)
      × Perm
          (queued xkb (meanwhile first)
            ++ posted_in xkb on_task_expired dispatch threads tasks listeners others h)
          (ran_in xkb on_task_expired dispatch threads tasks listeners others h ++ queued xkb v)
      × AreOnTime xkb on_task_expired dispatch threads h
