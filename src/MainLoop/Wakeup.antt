-- ===== src/MainLoop/Wakeup.antt =====
-- What a wake-up of the event loop makes the main loop do.
use flutter_embedder_wayland.Base.{ℕ, suc, ◌≡◌, List, [], ◌∷◌, ◌++◌, Option, none, some}
use mathlib.Core.List.{Perm}
use mathlib.Core.List.Perm
use flutter_embedder_wayland.EventLoop.Process.{tasks}
use flutter_embedder_wayland.MainLoop.Listeners.{Changed}
use flutter_embedder_wayland.EventLoop.{EventLoop, process_events}
use flutter_embedder_wayland.Keyboard.XkbCommon.{Xkb}
use flutter_embedder_wayland.MainLoop.{Display, Call, process, RoundInput, RoundEnd, leaves, Moment}

-- How often `ProcessEvents` is called.
abbrev pub processes : List Call → ℕ
processes [] = 0
processes (process ∷ cs) = suc (processes cs)
processes (_ ∷ cs) = processes cs

module _ {Keymap State T : Type 0} (xkb : Xkb Keymap State)
    (on_task_expired : T → EventLoop T × Display Keymap State → EventLoop T × Display Keymap State)
    (dispatch : EventLoop T × Display Keymap State → EventLoop T × Display Keymap State)
    (threads : Moment
      → RoundInput
      → EventLoop T × Display Keymap State
      → EventLoop T × Display Keymap State)
    (others : (m : Moment) (i : RoundInput) (w : EventLoop T × Display Keymap State)
      → Changed xkb w (threads m i w)) where
  abbrev World : Type 0
  World = EventLoop T × Display Keymap State

  -- Between two states of the event loop tasks were posted, and nothing else was done with the queue.
  abbrev Posted : EventLoop T → EventLoop T → Type 0
  Posted l v =
      (posted_since : List T) × Perm (tasks l.task_queue ++ posted_since) (tasks v.task_queue)

  -- A round that ends by `break` has called `ProcessEvents` once, on the event loop `l` with posts.
  abbrev Processes : EventLoop T → ℕ → Option (RoundEnd World × List Call) → Type 0
  Processes l now (some (leaves next w, calls)) =
      (v : World) × Posted l v.0
      × (process_events on_task_expired now v ≡ (next, w))
      × (processes calls ≡ 1)
  Processes l now _ = Unit {0}

  -- A part that leaves the event loop alone.
  abbrev Keeps : EventLoop T → Option (World × List Call) → Type 0
  Keeps l none = Unit {0}
  Keeps l (some (w, calls)) = (w.0 ≡ l) × (processes calls ≡ 0)

  abbrev TimerKeeps : EventLoop T → Option (Option (World × List Call)) → Type 0
  TimerKeeps l none = Unit {0}
  TimerKeeps l (some o) = Keeps l o
