-- ===== src/MainLoop.antt =====
-- `WaylandDisplay::Run` of src/wayland_display.cc: the loop of the main thread. What the kernel, the
-- compositor and the engine do in one round of `ppoll` is a record, `RoundInput`; the events that
-- `wl_display_dispatch_pending` hands to the listeners are an arbitrary change of the state, and so is
-- what the threads of the engine do meanwhile.
pub mod Timeouts
pub mod History
pub mod Warnings
pub mod Frames
pub mod Tally
pub mod Listeners
pub mod Traces
pub mod Invariant
pub mod Wakeup
mod Examples
use flutter_embedder_wayland.Base.{
  ℕ, zero, suc, ◌+◌, ◌^◌, Bool, true, false, ◌&&◌, ◌||◌, not, List, [], ◌∷◌, ◌++◌, Option, none,
  some, ◌==◌, if◌then◌else◌,
}
use flutter_embedder_wayland.Base.Syscall.{Rv, done, fails, is_eintr, retry}
use flutter_embedder_wayland.Base.Text.{Bytes}
use flutter_embedder_wayland.Time.{Timespec, set_sleep_to_next_platform_event}
use flutter_embedder_wayland.EventLoop.{EventLoop, process_events}
use flutter_embedder_wayland.Vsync.{
  Vsync, OnVsync, Result, no_baton, failed, sent, no_clock, vsync_handler, vsync_notify_data,
}
use flutter_embedder_wayland.Keyboard.XkbCommon.{Xkb}
use flutter_embedder_wayland.Keyboard.{Keyboard, on_timer}
use flutter_embedder_wayland.MemoryWatcher.{Watcher, Read, Outcome, handle_event}

-- The members of `WaylandDisplay` that the loop works on; `presentation` says that the compositor
-- has `wp_presentation`.
pub record Display (Keymap State : Type 0) : Type 0 where
  pub vsync : Vsync
  pub keyboard : Keyboard Keymap State
  pub watcher : Watcher
  pub presentation : Bool

-- The calls that the loop makes, in order.
pub data Call : Type 0 where
  -- wl_display_prepare_read returned 0, wl_display_read_events, wl_display_cancel_read
  prepare_read read_events cancel_read : Call
  dispatch_pending flush add_feedback : Call
  poll : Timespec → Call
  message : Bytes → Call
  -- FlutterEngineOnVsync, with the time at which vSyncHandler read the clock
  on_vsync : ℕ → OnVsync → Call
  -- HandleMemoryWatcherEvent, with its time and what it did
  handle_memory : ℕ → Outcome → Call
  process : Call

-- One round: what the clock shows each time that it is read, the results of the calls, the descriptors with POLLIN, and what the engine
-- answers. The descriptors are those of the sockets of the vsync, the display and the timer, the
-- memory watcher and the event loop.
pub record RoundInput : Type 0 where
  pub sleep_now : ℕ
  pub vsync_now : ℕ
  pub memory_now : ℕ
  pub loop_now : ℕ
  pub ppoll : List Rv
  pub vsync_ready : Bool
  pub display_ready : Bool
  pub timer_ready : Bool
  pub memory_ready : Bool
  pub loop_ready : Bool
  pub timer_read : List Rv
  pub vsync_read : List Rv
  pub memory_read : List Rv
  pub loop_read : List Rv
  pub usage_reads : List Read
  pub accepts_vsync : OnVsync → Bool
  pub accepts_warning : Bool

-- When the engine's threads may act between two steps of the main thread that see what they change,
-- the baton and the queue of tasks: while `ppoll` waits, before `vSyncHandler` takes the mutex of the
-- baton, and before `ProcessEvents` takes that of the queue.
pub data Moment : Type 0 where
  polling handling processing : Moment

-- How a round ends: `continue`, `break` with the time of the next platform event, `return false`.
pub data RoundEnd (W : Type 0) : Type 0 where
  again : W → RoundEnd W
  leaves : ℕ → W → RoundEnd W
  returns_false : RoundEnd W

abbrev pub engine_call : ℕ → Option OnVsync → List Call
engine_call now none = []
engine_call now (some c) = on_vsync now c ∷ []

module _ {Keymap State T : Type 0} (xkb : Xkb Keymap State)
    (on_task_expired : T → EventLoop T × Display Keymap State → EventLoop T × Display Keymap State)
    (dispatch : EventLoop T × Display Keymap State → EventLoop T × Display Keymap State)
    (threads : Moment
      → RoundInput
      → EventLoop T × Display Keymap State
      → EventLoop T × Display Keymap State) where
  abbrev pub World : Type 0
  World = EventLoop T × Display Keymap State

  -- The end of a round and its calls. `none`: the kernel never answered, or the fault of a shift.
  abbrev pub RoundOutcome : Type 0
  RoundOutcome = Option (RoundEnd World × List Call)

  abbrev after : List Call → RoundOutcome → RoundOutcome
  after calls none = none
  after calls (some (end, more)) = some (end, calls ++ more)

  -- The timer of the key repetition has expired.
  timer_part : RoundInput → World → Option (Option (World × List Call))
  timer_part i (l, d) =
      if i.timer_ready
      then elim (retry is_eintr i.timer_read) [
        | none ↦ none
        | some (fails e, _) ↦ some none
        | some (done n, _) ↦ elim (on_timer xkb d.keyboard) [
          | none ↦ none
          | some (k, none) ↦ some (some ((l, record d { keyboard = k }), []))
          | some (k, some m) ↦ some (some ((l, record d { keyboard = k }), message m ∷ []))
        ]
      ]
      else some (some ((l, d), []))

  is_sent : Result → Bool
  is_sent sent = true
  is_sent _ = false

  -- Behind the read of the notice: the feedback, if there is a presentation clock, and
  -- `vSyncHandler`, before which the threads of the engine may act.
  return_baton : RoundInput → World → RoundOutcome
  unfolding is_sent
  return_baton i w =
      let clock = not (w.1.vsync.presentation_clk_id == no_clock) && w.1.presentation in
      let (l, d) = threads handling i (if clock then dispatch w else w) in
      let (result, (v, call)) = vsync_handler i.accepts_vsync i.vsync_now d.vsync in
      let calls =
        (if clock then add_feedback ∷ dispatch_pending ∷ [] else [])
        ++ engine_call i.vsync_now call in
      some (if is_sent result then again (l, record d { vsync = v }) else returns_false, calls)

  vsync_part : RoundInput → World → RoundOutcome
  unfolding return_baton
  vsync_part i w = elim (vsync_notify_data i.vsync_read) [
    | none ↦ none
    | some (fails e, _) ↦ some (returns_false, [])
    | some (done n, _) ↦ if n == 1 then return_baton i w else some (returns_false, [])
  ]

  -- An event of the memory watcher; a failed read is only logged.
  memory_part : RoundInput → World → Option (World × List Call)
  memory_part i (l, d) =
      if i.memory_ready
      then elim (retry is_eintr i.memory_read) [
        | none ↦ none
        | some (fails e, _) ↦ some ((l, d), [])
        | some (done n, _) ↦
            elim (handle_event i.accepts_warning i.memory_now i.usage_reads d.watcher) [
              | none ↦ none
              | some (o, w') ↦
                  some ((l, record d { watcher = w' }), handle_memory i.memory_now o ∷ [])
            ]
      ]
      else some ((l, d), [])

  -- The event loop, if it was woken or `ppoll` timed out; the result of the read is not used. The
  -- threads of the engine, and the calls of the engine by the parts before, may post tasks until
  -- `ProcessEvents` takes the mutex.
  loop_part : RoundInput → ℕ → ℕ → World → RoundOutcome
  loop_part i timestamp ready w =
      let process_now =
        let (next, w') = process_events on_task_expired i.loop_now (threads processing i w) in
        some (leaves next w', process ∷ []) in
      if i.loop_ready
      then elim (retry is_eintr i.loop_read) [ none ↦ none | some r ↦ process_now ]
      else if ready == 0
      then process_now
      else some (leaves timestamp w, [])

  -- The part of a round behind the vsync.
  rest_part : RoundInput → ℕ → ℕ → World → RoundOutcome
  unfolding memory_part loop_part
  rest_part i timestamp ready w =
      after ((if i.display_ready then read_events else cancel_read) ∷ []) (elim (memory_part i w) [
        | none ↦ none
        | some (w', calls) ↦ after calls (loop_part i timestamp ready w')
      ])

  -- The part of a round behind `ppoll`.
  unfoldable pub ready_part : RoundInput → ℕ → ℕ → World → RoundOutcome
  unfolding timer_part vsync_part rest_part
  ready_part i timestamp ready w = elim (timer_part i w) [
    | none ↦ none
    | some none ↦ some (returns_false, [])
    | some (some (w', calls)) ↦
        after calls (if i.vsync_ready then vsync_part i w' else rest_part i timestamp ready w')
  ]

  -- One round, with the time of the next platform event. The threads of the engine act while `ppoll`
  -- waits.
  unfoldable pub round : RoundInput → ℕ → World → RoundOutcome
  round i timestamp w =
      after (poll (set_sleep_to_next_platform_event timestamp i.sleep_now) ∷ [])
        (elim (retry is_eintr i.ppoll) [
          | none ↦ none
          | some (fails e, _) ↦ some (returns_false, [])
          | some (done ready, _) ↦ ready_part i timestamp ready (threads polling i w)
        ])

  -- The inner loop: the state at its `break`, or `none` for `return false`.
  unfoldable pub rounds : List RoundInput → ℕ → World → Option (Option World × List Call)
  rounds [] timestamp w = none
  rounds (i ∷ is) timestamp w = elim (round i timestamp w) [
    | none ↦ none
    | some (again w', calls) ↦ elim (rounds is timestamp w') [
      | none ↦ none
      | some (end, more) ↦ some (end, calls ++ more)
    ]
    | some (leaves next w', calls) ↦ some (some w', calls)
    | some (returns_false, calls) ↦ some (none, calls)
  ]

  -- `while (wl_display_prepare_read() != 0)`, which fails `n` times.
  unfoldable pub prepare : ℕ → World → World × List Call
  prepare zero w = (w, prepare_read ∷ flush ∷ [])
  prepare (suc n) w = let (w', calls) = prepare n (dispatch w) in (w', dispatch_pending ∷ calls)

  -- The body of the outer loop. `timestamp_of_next_platform_event_ns` is declared in it.
  unfoldable pub iteration : ℕ → List RoundInput → World → Option (Option World × List Call)
  iteration n is w =
      let (w', calls) = prepare n w in
      elim (rounds is 0 w') [
        | none ↦ none
        | some (none, more) ↦ some (none, calls ++ more)
        | some (some w'', more) ↦
            some (some (dispatch w''), calls ++ (more ++ dispatch_pending ∷ []))
      ]

  -- The outer loop. `valid_` stays true: nothing but the constructor sets it.
  unfoldable pub run : List (ℕ × List RoundInput) → World → Option (Option World × List Call)
  run [] w = some (some w, [])
  run ((n, is) ∷ rest) w = elim (iteration n is w) [
    | none ↦ none
    | some (none, calls) ↦ some (none, calls)
    | some (some w', calls) ↦ elim (run rest w') [
      | none ↦ none
      | some (end, more) ↦ some (end, calls ++ more)
    ]
  ]
