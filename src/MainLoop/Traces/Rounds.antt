-- ===== src/MainLoop/Traces/Rounds.antt =====
-- A round of the main loop keeps a contract that each of its parts keeps.
use flutter_embedder_wayland.Base.{
  ℕ, ◌≡◌, refl, Bool, true, false, not, ◌&&◌, ◌==◌, List, [], ◌∷◌, Option, none, some, arith,
  if◌then◌else◌,
}
use flutter_embedder_wayland.Base.Text.{Bytes}
use flutter_embedder_wayland.MainLoop.Traces.{Contract}
use flutter_embedder_wayland.Base.Syscall.{Rv, done, fails, is_eintr, retry}
use flutter_embedder_wayland.EventLoop.{EventLoop}
use flutter_embedder_wayland.Time.{set_sleep_to_next_platform_event}
use flutter_embedder_wayland.Vsync.{no_clock}
use flutter_embedder_wayland.Keyboard.XkbCommon.{Xkb}
use flutter_embedder_wayland.Keyboard.{Keyboard, on_timer}
use flutter_embedder_wayland.MemoryWatcher.{Watcher, Outcome, handle_event}
use flutter_embedder_wayland.MainLoop.{
  Display, Call, read_events, cancel_read, dispatch_pending, add_feedback, poll, message,
  handle_memory, Moment, polling, handling, processing, RoundInput, RoundEnd, again, leaves,
  returns_false, after, timer_part, return_baton, vsync_part, memory_part, loop_part, rest_part,
  ready_part, round, Moment,
}

module _ {Keymap State T : Type 0} (xkb : Xkb Keymap State)
    (on_task_expired : T → EventLoop T × Display Keymap State → EventLoop T × Display Keymap State)
    (dispatch : EventLoop T × Display Keymap State → EventLoop T × Display Keymap State)
    (threads : Moment
      → RoundInput
      → EventLoop T × Display Keymap State
      → EventLoop T × Display Keymap State)
    {Fine : RoundInput → Type 0}
    {Rel : EventLoop T × Display Keymap State
      → List Call
      → EventLoop T × Display Keymap State
      → Type 0}
    {Halt : EventLoop T × Display Keymap State → List Call → Type 0}
    (c : Contract xkb on_task_expired dispatch threads Fine Rel Halt) where
  open c use {
    stay, join, halts, join_halt, quiet, dispatches, acts, repeats, answers, watches, processes,
  }

  abbrev World : Type 0
  World = EventLoop T × Display Keymap State

  abbrev pub Ends : World → RoundEnd World → List Call → Type 0
  Ends w (again v) cs = Rel w cs v
  Ends w (leaves t v) cs = Rel w cs v
  Ends w returns_false cs = Halt w cs

  abbrev pub RoundKeeps : World → Option (RoundEnd World × List Call) → Type 0
  RoundKeeps w none = Unit {0}
  RoundKeeps w (some (end, cs)) = Ends w end cs

  abbrev PartKeeps : World → Option (World × List Call) → Type 0
  PartKeeps w none = Unit {0}
  PartKeeps w (some (v, cs)) = Rel w cs v

  abbrev TimerKeeps : World → Option (Option (World × List Call)) → Type 0
  TimerKeeps w none = Unit {0}
  TimerKeeps w (some o) = PartKeeps w o

  after-RoundKeeps :
      (u v : World) (xs : List Call) (o : Option (RoundEnd World × List Call))
      → Rel u xs v
      → RoundKeeps v o
      → RoundKeeps u (after xkb on_task_expired dispatch threads xs o)
  after-RoundKeeps u v xs none r k = tt
  after-RoundKeeps u v xs (some (again w, ys)) r k = join u v w xs ys r k
  after-RoundKeeps u v xs (some (leaves t w, ys)) r k = join u v w xs ys r k
  after-RoundKeeps u v xs (some (returns_false, ys)) r k = join_halt u v xs ys r k

  behind_act :
      (u v : World) (o : Option (RoundEnd World × List Call))
      → Rel u [] v
      → RoundKeeps v o
      → RoundKeeps u o
  behind_act u v none r k = tt
  behind_act u v (some (again w, ys)) r k = join u v w [] ys r k
  behind_act u v (some (leaves t w, ys)) r k = join u v w [] ys r k
  behind_act u v (some (returns_false, ys)) r k = join_halt u v [] ys r k

  timer_keeps :
      (w : World) (o : Option (Keyboard Keymap State × Option Bytes))
      → on_timer xkb w.1.keyboard ≡ o
      → TimerKeeps w (elim o [
        | none ↦ none
        | some (k, none) ↦ some (some ((w.0, record w.1 { keyboard = k }), []))
        | some (k, some m) ↦ some (some ((w.0, record w.1 { keyboard = k }), message m ∷ []))
      ])
  timer_keeps w none e = tt
  timer_keeps w (some (k, none)) e = repeats w k none e
  timer_keeps w (some (k, some m)) e = repeats w k (some m) e

  timer_part-TimerKeeps :
      (i : RoundInput) (w : World)
      → TimerKeeps w (timer_part xkb on_task_expired dispatch threads i w)
  unfolding timer_part
  timer_part-TimerKeeps i w =
      let s = timer_keeps w (on_timer xkb w.1.keyboard) refl in ground (arith, stay w)

  feedback_keeps :
      (b : Bool) (w : World)
      → Rel w (if b then add_feedback ∷ dispatch_pending ∷ [] else []) (if b then dispatch w else w)
  feedback_keeps false w = stay w
  feedback_keeps true w =
      join w w (dispatch w) (add_feedback ∷ []) (dispatch_pending ∷ []) (quiet add_feedback w refl)
        (dispatches w)

  again_if :
      (b : Bool) (u v : World) (cs : List Call)
      → Rel u cs v
      → Ends u (if b then again v else returns_false) cs
  again_if true u v cs r = r
  again_if false u v cs r = halts u v cs r

  return_baton-RoundKeeps :
      (i : RoundInput) (w : World)
      → Fine i
      → RoundKeeps w (return_baton xkb on_task_expired dispatch threads i w)
  unfolding return_baton
  return_baton-RoundKeeps i w f =
      let clock = not (w.1.vsync.presentation_clk_id == no_clock) && w.1.presentation in
      again_if _ w _ _ (
        join w _ _ _ _ (feedback_keeps clock w) (
          let u = if clock then dispatch w else w in
          join u _ _ [] _ (acts handling i u f) (answers i (threads handling i u) f)))

  vsync_part-RoundKeeps :
      (i : RoundInput) (w : World)
      → Fine i
      → RoundKeeps w (vsync_part xkb on_task_expired dispatch threads i w)
  unfolding vsync_part
  vsync_part-RoundKeeps i w f =
      let stops = halts w w [] (stay w) in ground (arith, return_baton-RoundKeeps i w f)

  memory_keeps :
      (i : RoundInput) (w : World) (o : Option (Outcome × Watcher))
      → Fine i
      → handle_event i.accepts_warning i.memory_now i.usage_reads w.1.watcher ≡ o
      → PartKeeps w (elim o [
        | none ↦ none
        | some (r, w') ↦
            some ((w.0, record w.1 { watcher = w' }), handle_memory i.memory_now r ∷ [])
      ])
  memory_keeps i w none f e = tt
  memory_keeps i w (some (o, w')) f e = watches i w o w' f e

  memory_part-PartKeeps :
      (i : RoundInput) (w : World)
      → Fine i
      → PartKeeps w (memory_part xkb on_task_expired dispatch threads i w)
  unfolding memory_part
  memory_part-PartKeeps i w f = let s = memory_keeps i w _ f refl in ground (arith, stay w)

  loop_part-RoundKeeps :
      (i : RoundInput) (t r : ℕ) (w : World)
      → Fine i
      → RoundKeeps w (loop_part xkb on_task_expired dispatch threads i t r w)
  unfolding loop_part
  loop_part-RoundKeeps i t r w f =
      let act =
        join w (threads processing i w) _ [] _ (acts processing i w f)
          (processes i (threads processing i w) f) in
      ground (arith, stay w, act)

  rest_part-RoundKeeps :
      (i : RoundInput) (t r : ℕ) (w : World)
      → Fine i
      → RoundKeeps w (rest_part xkb on_task_expired dispatch threads i t r w)
  unfolding rest_part
  rest_part-RoundKeeps i t r w f =
      after-RoundKeeps w w ((if i.display_ready then read_events else cancel_read) ∷ []) _
        (quiet _ w (ground arith))
        (go (memory_part xkb on_task_expired dispatch threads i w) (memory_part-PartKeeps i w f))
    where
      go :
          (o : Option (World × List Call))
          → PartKeeps w o
          → RoundKeeps w (elim o [
            | none ↦ none
            | some (w', calls) ↦
                after xkb on_task_expired dispatch threads calls
                  (loop_part xkb on_task_expired dispatch threads i t r w')
          ])
      go none k = tt
      go (some (w', calls)) k = after-RoundKeeps w w' calls _ k (loop_part-RoundKeeps i t r w' f)

  behind_timer :
      (i : RoundInput) (t r : ℕ) (w : World)
      → Fine i
      → RoundKeeps w (
          if i.vsync_ready
          then vsync_part xkb on_task_expired dispatch threads i w
          else rest_part xkb on_task_expired dispatch threads i t r w)
  behind_timer i t r w f =
      ground (arith, vsync_part-RoundKeeps i w f, rest_part-RoundKeeps i t r w f)

  ready_part-RoundKeeps :
      (i : RoundInput) (t r : ℕ) (w : World)
      → Fine i
      → RoundKeeps w (ready_part xkb on_task_expired dispatch threads i t r w)
  unfolding ready_part
  ready_part-RoundKeeps i t r w f =
      go (timer_part xkb on_task_expired dispatch threads i w) (timer_part-TimerKeeps i w)
    where
      go :
          (o : Option (Option (World × List Call)))
          → TimerKeeps w o
          → RoundKeeps w (elim o [
            | none ↦ none
            | some none ↦ some (returns_false, [])
            | some (some (w', calls)) ↦ after xkb on_task_expired dispatch threads calls (
                if i.vsync_ready
                then vsync_part xkb on_task_expired dispatch threads i w'
                else rest_part xkb on_task_expired dispatch threads i t r w')
          ])
      go none k = tt
      go (some none) k = halts w w [] (stay w)
      go (some (some (w', calls))) k = after-RoundKeeps w w' calls _ k (behind_timer i t r w' f)

  -- A round keeps the contract.
  pub round-RoundKeeps :
      (i : RoundInput) (t : ℕ) (w : World)
      → Fine i
      → RoundKeeps w (round xkb on_task_expired dispatch threads i t w)
  unfolding round
  round-RoundKeeps i t w f =
      let timeout = poll (set_sleep_to_next_platform_event t i.sleep_now) in
      after-RoundKeeps w w (timeout ∷ []) _ (quiet timeout w refl) (go (retry is_eintr i.ppoll))
    where
      go :
          (o : Option (Rv × List Rv))
          → RoundKeeps w (elim o [
            | none ↦ none
            | some (fails e, _) ↦ some (returns_false, [])
            | some (done ready, _) ↦
                ready_part xkb on_task_expired dispatch threads i t ready (threads polling i w)
          ])
      go none = tt
      go (some (fails e, _)) = halts w w [] (stay w)
      go (some (done ready, _)) =
          behind_act w (threads polling i w) _ (acts polling i w f)
            (ready_part-RoundKeeps i t ready (threads polling i w) f)
