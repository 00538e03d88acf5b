-- ===== src/MainLoop/History/Batons.antt =====
-- The batons over any run of the main loop: those that the engine has handed over are given back
-- once each, in their order.
use mathlib.Core.List.{append_assoc, append-nil}
use flutter_embedder_wayland.Base.{
  ℕ, ◌≡◌, refl, sym, ◌∙◌, ap, Bool, true, List, [], ◌∷◌, ◌++◌, Option, some, arith,
}
use flutter_embedder_wayland.Base.Text.{Bytes}
use flutter_embedder_wayland.EventLoop.{EventLoop, fire, process_events}
use flutter_embedder_wayland.EventLoop.Queue.{take_expired}
use flutter_embedder_wayland.Vsync.{
  Vsync, OnVsync, vsync_handler, store_baton, presented, presentation_clock_id, frame_done,
}
use flutter_embedder_wayland.Vsync.Handoff.{waiting}
use flutter_embedder_wayland.Keyboard.XkbCommon.{Xkb}
use flutter_embedder_wayland.MainLoop.Listeners.{
  Changed, unchanged, then_keyboard, then_baton, then_clock, then_presented, then_frame, then_mode,
  then_global, then_post,
}
use flutter_embedder_wayland.MainLoop.Traces.{is_quiet, sent_messages}
use flutter_embedder_wayland.MainLoop.History.{
  History, nothing, in_turn, calls_only, dispatches, repeats_key, threads_act, answers_vsync,
  watches_memory, processes_tasks,
}
use flutter_embedder_wayland.MainLoop.{Display, Call, on_vsync, engine_call, Moment, RoundInput}

-- The batons of the calls of `FlutterEngineOnVsync`.
abbrev pub returned : List Call → List ℕ
returned [] = []
returned (on_vsync now c ∷ cs) = c.baton ∷ returned cs
returned (_ ∷ cs) = returned cs

returned-append : (xs ys : List Call) → returned (xs ++ ys) ≡ returned xs ++ returned ys
returned-append [] ys = refl
returned-append (c ∷ xs) ys = ground (arith, returned-append xs ys)

returned-is_quiet : (c : Call) → is_quiet c ≡ true → returned (c ∷ []) ≡ []
returned-is_quiet c h = ground arith

returned-sent_messages : (o : Option Bytes) → returned (sent_messages o) ≡ []
returned-sent_messages o = ground arith

-- `vSyncHandler` gives back the baton that waits.
vsync_handler-waiting :
    (accepts : OnVsync → Bool) (now : ℕ) (v : Vsync)
    → let (result, (v', call)) = vsync_handler accepts now v in
      waiting v.baton ≡ returned (engine_call now call) ++ waiting v'.baton
unfolding vsync_handler
vsync_handler-waiting accepts now v = ground arith

store_baton-waiting :
    (b : ℕ) (v s : Vsync)
    → store_baton b v ≡ some s
    → (waiting v.baton ≡ []) × (waiting s.baton ≡ waiting b)
unfolding store_baton
store_baton-waiting b v s e = ground arith

frame_done-waiting : (now : ℕ) (v : Vsync) → waiting (frame_done now v).0.baton ≡ waiting v.baton
unfolding frame_done
frame_done-waiting now v = ground arith

module _ {Keymap State T : Type 0} (xkb : Xkb Keymap State) where
  -- The batons that are stored among the changes.
  abbrev pub stored : {w v : EventLoop T × Display Keymap State} → Changed xkb w v → List ℕ
  stored unchanged = []
  stored (then_keyboard i k m c e) = stored c
  stored (then_baton b s c e) = stored c ++ waiting b
  stored (then_clock clk_id c) = stored c
  stored (then_presented hi lo nsec c) = stored c
  stored (then_frame now c) = stored c
  stored (then_mode refresh period c e) = stored c
  stored (then_global c) = stored c
  stored (then_post t at c) = stored c

  abbrev pub waits_in : EventLoop T × Display Keymap State → List ℕ
  waits_in w = waiting w.1.vsync.baton

  pub Changed-stored :
      (w v : EventLoop T × Display Keymap State) (c : Changed xkb w v)
      → waits_in w ++ stored c ≡ waits_in v
  unfolding presented presentation_clock_id
  Changed-stored w v unchanged = append-nil (waits_in w)
  Changed-stored w v (then_keyboard {v = u} i k m c e) = Changed-stored w u c
  Changed-stored w v (then_baton {v = u} b s c e) =
      let (free, full) = store_baton-waiting b u.1.vsync s e in
      sym (append_assoc (waits_in w) (stored c) (waiting b))
      ∙ ap (λ bs. bs ++ waiting b) (Changed-stored w u c ∙ free)
      ∙ sym full
  Changed-stored w v (then_clock {v = u} clk_id c) = Changed-stored w u c
  Changed-stored w v (then_presented {v = u} hi lo nsec c) = Changed-stored w u c
  Changed-stored w v (then_frame {v = u} now c) =
      Changed-stored w u c ∙ sym (frame_done-waiting now u.1.vsync)
  Changed-stored w v (then_mode {v = u} refresh period c e) = Changed-stored w u c
  Changed-stored w v (then_global {v = u} c) = Changed-stored w u c
  Changed-stored w v (then_post {v = u} t at c) = Changed-stored w u c

module _ {Keymap State T : Type 0} (xkb : Xkb Keymap State)
    (on_task_expired : T → EventLoop T × Display Keymap State → EventLoop T × Display Keymap State)
    (dispatch : EventLoop T × Display Keymap State → EventLoop T × Display Keymap State)
    (threads : Moment
      → RoundInput
      → EventLoop T × Display Keymap State
      → EventLoop T × Display Keymap State)
    (tasks : (t : T) (w : EventLoop T × Display Keymap State) → Changed xkb w (on_task_expired t w))
    (listeners : (w : EventLoop T × Display Keymap State) → Changed xkb w (dispatch w))
    (others : (m : Moment) (i : RoundInput) (w : EventLoop T × Display Keymap State)
      → Changed xkb w (threads m i w)) where
  abbrev World : Type 0
  World = EventLoop T × Display Keymap State

  -- The batons that are stored while tasks run, one after the other.
  abbrev pub stored_by_tasks : List T → World → List ℕ
  stored_by_tasks [] w = []
  stored_by_tasks (t ∷ ts) w = stored xkb (tasks t w) ++ stored_by_tasks ts (on_task_expired t w)

  -- The batons that the engine has stored in the course of a history.
  abbrev pub stored_in :
      {Fine : RoundInput → Type 0} {u v : World} {cs : List Call}
      → History xkb on_task_expired dispatch threads Fine u cs v
      → List ℕ
  stored_in (nothing w) = []
  stored_in (in_turn h k) = stored_in h ++ stored_in k
  stored_in (calls_only c w e) = []
  stored_in (dispatches w) = stored xkb (listeners w)
  stored_in (threads_act m i w f) = stored xkb (others m i w)
  stored_in (repeats_key w k m e) = []
  stored_in (answers_vsync i w f) = []
  stored_in (watches_memory i w o w' f e) = []
  stored_in (processes_tasks i w f) =
      stored_by_tasks (take_expired i.loop_now w.0.task_queue).0
        (record (w.0) { task_queue = (take_expired i.loop_now w.0.task_queue).1 }, w.1)

  fire-stored_by_tasks :
      (ts : List T) (w : World)
      → waits_in xkb w ++ stored_by_tasks ts w ≡ waits_in xkb (fire on_task_expired ts w)
  unfolding fire
  fire-stored_by_tasks [] w = append-nil (waits_in xkb w)
  fire-stored_by_tasks (t ∷ ts) w =
      sym (
        append_assoc (waits_in xkb w) (stored xkb (tasks t w))
          (stored_by_tasks ts (on_task_expired t w)))
      ∙ ap (λ bs. bs ++ stored_by_tasks ts (on_task_expired t w))
          (Changed-stored xkb w (on_task_expired t w) (tasks t w))
      ∙ fire-stored_by_tasks ts (on_task_expired t w)

  -- Two balances, one after the other.
  add_up :
      (a b c d e f g : List ℕ) → a ++ b ≡ c ++ d → d ++ e ≡ f ++ g → a ++ (b ++ e) ≡ (c ++ f) ++ g
  add_up a b c d e f g h k =
      sym (append_assoc a b e)
      ∙ ap (λ x. x ++ e) h
      ∙ append_assoc c d e
      ∙ ap (λ x. c ++ x) k
      ∙ sym (append_assoc c f g)

  pub History-balance :
      {Fine : RoundInput → Type 0} {u v : World} {cs : List Call}
      (h : History xkb on_task_expired dispatch threads Fine u cs v)
      → waits_in xkb u ++ stored_in h ≡ returned cs ++ waits_in xkb v
  unfolding process_events
  History-balance (nothing w) = append-nil (waits_in xkb w)
  History-balance (in_turn {u} {v} {w} {xs} {ys} h k) =
      add_up (waits_in xkb u) (stored_in h) (returned xs) (waits_in xkb v) (stored_in k)
        (returned ys) (waits_in xkb w) (History-balance h) (History-balance k)
      ∙ ap (λ bs. bs ++ waits_in xkb w) (sym (returned-append xs ys))
  History-balance (calls_only c w e) =
      append-nil (waits_in xkb w) ∙ ap (λ bs. bs ++ waits_in xkb w) (sym (returned-is_quiet c e))
  History-balance (dispatches w) = Changed-stored xkb w (dispatch w) (listeners w)
  History-balance (threads_act m i w f) = Changed-stored xkb w (threads m i w) (others m i w)
  History-balance (repeats_key w k m e) =
      append-nil (waits_in xkb w) ∙ ap (λ bs. bs ++ waits_in xkb w) (sym (returned-sent_messages m))
  History-balance (answers_vsync i w f) =
      append-nil (waits_in xkb w) ∙ vsync_handler-waiting i.accepts_vsync i.vsync_now w.1.vsync
  History-balance (watches_memory i w o w' f e) = append-nil (waits_in xkb w)
  History-balance (processes_tasks i w f) =
      fire-stored_by_tasks (take_expired i.loop_now w.0.task_queue).0 _
