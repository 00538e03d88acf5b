-- ===== src/MainLoop/Traces.antt =====
-- Properties of the runs of the main loop by its parts: what holds of each change of the state and of
-- the calls that come with it holds of every run.
pub mod Rounds
pub mod Runs
mod Examples
use flutter_embedder_wayland.Base.{
  ℕ, zero, suc, ◌≡◌, refl, Bool, true, false, not, ◌&&◌, ◌==◌, List, [], ◌∷◌, ◌++◌, Option, none,
  some, arith, All, if◌then◌else◌,
}
use flutter_embedder_wayland.Base.Text.{Bytes}
use flutter_embedder_wayland.Base.Syscall.{Rv, done, fails, is_eintr, retry}
use flutter_embedder_wayland.EventLoop.{EventLoop, process_events}
use flutter_embedder_wayland.Time.{set_sleep_to_next_platform_event}
use flutter_embedder_wayland.Vsync.{no_clock, vsync_handler}
use flutter_embedder_wayland.Keyboard.XkbCommon.{Xkb}
use flutter_embedder_wayland.Keyboard.{Keyboard, on_timer}
use flutter_embedder_wayland.MemoryWatcher.{Watcher, Outcome, handle_event}
use flutter_embedder_wayland.MainLoop.{
  Display, Call, prepare_read, read_events, cancel_read, dispatch_pending, flush, add_feedback,
  poll, message, handle_memory, process, Moment, RoundInput, RoundEnd, again, leaves, returns_false,
  after, timer_part, engine_call, return_baton, vsync_part, memory_part, loop_part, rest_part,
  ready_part, round, rounds, prepare, iteration, run,
}

-- Calls that leave the state as it is.
abbrev pub is_quiet : Call → Bool
is_quiet prepare_read = true
is_quiet read_events = true
is_quiet cancel_read = true
is_quiet flush = true
is_quiet add_feedback = true
is_quiet (poll t) = true
is_quiet _ = false

abbrev pub sent_messages : Option Bytes → List Call
sent_messages none = []
sent_messages (some m) = message m ∷ []

module _ {Keymap State T : Type 0} (xkb : Xkb Keymap State)
    (on_task_expired : T → EventLoop T × Display Keymap State → EventLoop T × Display Keymap State)
    (dispatch : EventLoop T × Display Keymap State → EventLoop T × Display Keymap State)
    (threads : Moment
      → RoundInput
      → EventLoop T × Display Keymap State
      → EventLoop T × Display Keymap State) where
  abbrev World : Type 0
  World = EventLoop T × Display Keymap State

  -- `Rel u calls v`: from `u` these calls may lead to `v`; `Halt u calls`: with these calls the
  -- program may end. `Fine` is what is known of the input of a round.
  pub record Contract (Fine : RoundInput → Type 0) (Rel : World → List Call → World → Type 0)
      (Halt : World → List Call → Type 0) : Type 0 where
    pub stay : (w : World) → Rel w [] w
    pub join : (u v w : World) (xs ys : List Call) → Rel u xs v → Rel v ys w → Rel u (xs ++ ys) w
    pub halts : (u v : World) (xs : List Call) → Rel u xs v → Halt u xs
    pub join_halt : (u v : World) (xs ys : List Call) → Rel u xs v → Halt v ys → Halt u (xs ++ ys)
    pub quiet : (c : Call) (w : World) → is_quiet c ≡ true → Rel w (c ∷ []) w
    pub dispatches : (w : World) → Rel w (dispatch_pending ∷ []) (dispatch w)
    pub acts : (m : Moment) (i : RoundInput) (w : World) → Fine i → Rel w [] (threads m i w)
    pub repeats :
        (w : World) (k : Keyboard Keymap State) (m : Option Bytes)
        → on_timer xkb w.1.keyboard ≡ some (k, m)
        → Rel w (sent_messages m) (w.0, record w.1 { keyboard = k })
    pub answers :
        (i : RoundInput) (w : World)
        → Fine i
        → let (result, (v, call)) = vsync_handler i.accepts_vsync i.vsync_now w.1.vsync in
          Rel w (engine_call i.vsync_now call) (w.0, record w.1 { vsync = v })
    pub watches :
        (i : RoundInput) (w : World) (o : Outcome) (w' : Watcher)
        → Fine i
        → handle_event i.accepts_warning i.memory_now i.usage_reads w.1.watcher ≡ some (o, w')
        → Rel w (handle_memory i.memory_now o ∷ []) (w.0, record w.1 { watcher = w' })
    pub processes :
        (i : RoundInput) (w : World)
        → Fine i
        → Rel w (process ∷ []) (process_events on_task_expired i.loop_now w).1
