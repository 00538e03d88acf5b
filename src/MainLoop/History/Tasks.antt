-- ===== src/MainLoop/History/Tasks.antt =====
-- The tasks of the engine over any run of the main loop: those that are posted are run once each, or
-- wait in the queue.
use mathlib.Core.List.{Perm, append_assoc, append-nil, perm_append_comm}
use mathlib.Core.List.Perm
use flutter_embedder_wayland.Base.{sym, List, [], ◌∷◌, ◌++◌}
use flutter_embedder_wayland.EventLoop.{EventLoop, post_task, fire, process_events}
use flutter_embedder_wayland.EventLoop.Queue.{take_expired}
use flutter_embedder_wayland.EventLoop.Process.{tasks, tasks-push, take_expired-append}
use flutter_embedder_wayland.Keyboard.XkbCommon.{Xkb}
use flutter_embedder_wayland.MainLoop.Listeners.{
  Changed, unchanged, then_keyboard, then_baton, then_clock, then_presented, then_frame, then_mode,
  then_global, then_post,
}
use flutter_embedder_wayland.MainLoop.History.{
  History, nothing, in_turn, calls_only, dispatches, repeats_key, threads_act, answers_vsync,
  watches_memory, processes_tasks,
}
use flutter_embedder_wayland.MainLoop.{Display, Call, Moment, RoundInput}

module _ {Keymap State T : Type 0} (xkb : Xkb Keymap State) where
  -- The tasks that are posted among the changes.
  abbrev pub posted : {w v : EventLoop T × Display Keymap State} → Changed xkb w v → List T
  posted unchanged = []
  posted (then_keyboard i k m c e) = posted c
  posted (then_baton b s c e) = posted c
  posted (then_clock clk_id c) = posted c
  posted (then_presented hi lo nsec c) = posted c
  posted (then_frame now c) = posted c
  posted (then_mode refresh period c e) = posted c
  posted (then_global c) = posted c
  posted (then_post t at c) = posted c ++ t ∷ []

  abbrev pub queued : EventLoop T × Display Keymap State → List T
  queued w = tasks w.0.task_queue

  -- Two balances, one after the other.
  add_up :
      (a b c d e f g : List T)
      → Perm (a ++ b) (c ++ d)
      → Perm (d ++ e) (f ++ g)
      → Perm (a ++ (b ++ e)) ((c ++ f) ++ g)
  add_up a b c d e f g h k =
      rw (← append_assoc a b e, append_assoc c f g)
        (Perm.trans (Perm.append h (Perm.refl e))
          (rw (append_assoc c d e) (Perm.append (Perm.refl c) k)))

  pub Changed-posted :
      (w v : EventLoop T × Display Keymap State) (c : Changed xkb w v)
      → Perm (queued w ++ posted c) (queued v)
  unfolding post_task
  Changed-posted w v unchanged = rw (append-nil (queued w)) (Perm.refl (queued w))
  Changed-posted w v (then_keyboard {v = u} i k m c e) = Changed-posted w u c
  Changed-posted w v (then_baton {v = u} b s c e) = Changed-posted w u c
  Changed-posted w v (then_clock {v = u} clk_id c) = Changed-posted w u c
  Changed-posted w v (then_presented {v = u} hi lo nsec c) = Changed-posted w u c
  Changed-posted w v (then_frame {v = u} now c) = Changed-posted w u c
  Changed-posted w v (then_mode {v = u} refresh period c e) = Changed-posted w u c
  Changed-posted w v (then_global {v = u} c) = Changed-posted w u c
  Changed-posted w v (then_post {v = u} t at c) =
      rw (← append_assoc (queued w) (posted c) (t ∷ [])) (
        Perm.trans (Perm.append (Changed-posted w u c) (Perm.refl (t ∷ []))) (
          Perm.trans (perm_append_comm (queued u) (t ∷ []))
            (Perm.symm (tasks-push _ u.0.task_queue))))

module _ {Keymap State T : Type 0} (xkb : Xkb Keymap State)
    (on_task_expired : T → EventLoop T × Display Keymap State → EventLoop T × Display Keymap State)
    (dispatch : EventLoop T × Display Keymap State → EventLoop T × Display Keymap State)
    (threads : Moment
      → RoundInput
      → EventLoop T × Display Keymap State
      → EventLoop T × Display Keymap State)
    (tasks : (t : T) (w : EventLoop T × Display Keymap State) → Changed xkb w (on_task_expired t w))
    (listeners : (w : EventLoop T × Display Keymap State) → Changed xkb w (dispatch w))
    (others : (m : Moment) (i : RoundInput) (w : EventLoop T × Display Keymap State)
      → Changed xkb w (threads m i w)) where
  abbrev World : Type 0
  World = EventLoop T × Display Keymap State

  -- The tasks that are posted while tasks run, one after the other.
  abbrev pub posted_by_tasks : List T → World → List T
  posted_by_tasks [] w = []
  posted_by_tasks (t ∷ ts) w = posted xkb (tasks t w) ++ posted_by_tasks ts (on_task_expired t w)

  -- The tasks that are posted and those that are run in the course of a history.
  abbrev pub posted_in :
      {Fine : RoundInput → Type 0} {u v : World} {cs : List Call}
      → History xkb on_task_expired dispatch threads Fine u cs v
      → List T
  posted_in (nothing w) = []
  posted_in (in_turn h k) = posted_in h ++ posted_in k
  posted_in (calls_only c w e) = []
  posted_in (dispatches w) = posted xkb (listeners w)
  posted_in (threads_act m i w f) = posted xkb (others m i w)
  posted_in (repeats_key w k m e) = []
  posted_in (answers_vsync i w f) = []
  posted_in (watches_memory i w o w' f e) = []
  posted_in (processes_tasks i w f) =
      posted_by_tasks (take_expired i.loop_now w.0.task_queue).0
        (record (w.0) { task_queue = (take_expired i.loop_now w.0.task_queue).1 }, w.1)

  abbrev pub ran_in :
      {Fine : RoundInput → Type 0} {u v : World} {cs : List Call}
      → History xkb on_task_expired dispatch threads Fine u cs v
      → List T
  ran_in (in_turn h k) = ran_in h ++ ran_in k
  ran_in (processes_tasks i w f) = (take_expired i.loop_now w.0.task_queue).0
  ran_in _ = []

  fire-posted_by_tasks :
      (ts : List T) (w : World)
      → Perm (queued xkb w ++ posted_by_tasks ts w) (queued xkb (fire on_task_expired ts w))
  unfolding fire
  fire-posted_by_tasks [] w = rw (append-nil (queued xkb w)) (Perm.refl (queued xkb w))
  fire-posted_by_tasks (t ∷ ts) w =
      rw
        (← append_assoc (queued xkb w) (posted xkb (tasks t w))
          (posted_by_tasks ts (on_task_expired t w)))
        (Perm.trans
          (Perm.append (Changed-posted xkb w (on_task_expired t w) (tasks t w)) (Perm.refl _))
          (fire-posted_by_tasks ts (on_task_expired t w)))

  still : (w : World) → Perm (queued xkb w ++ []) (queued xkb w)
  still w = rw (append-nil (queued xkb w)) (Perm.refl (queued xkb w))

  pub History-tasks :
      {Fine : RoundInput → Type 0} {u v : World} {cs : List Call}
      (h : History xkb on_task_expired dispatch threads Fine u cs v)
      → Perm (queued xkb u ++ posted_in h) (ran_in h ++ queued xkb v)
  unfolding process_events
  History-tasks (nothing w) = still w
  History-tasks (in_turn {u} {v} {w} {xs} {ys} h k) =
      add_up xkb (queued xkb u) (posted_in h) (ran_in h) (queued xkb v) (posted_in k) (ran_in k)
        (queued xkb w) (History-tasks h) (History-tasks k)
  History-tasks (calls_only c w e) = still w
  History-tasks (dispatches w) = Changed-posted xkb w (dispatch w) (listeners w)
  History-tasks (threads_act m i w f) = Changed-posted xkb w (threads m i w) (others m i w)
  History-tasks (repeats_key w k m e) = still w
  History-tasks (answers_vsync i w f) = still w
  History-tasks (watches_memory i w o w' f e) = still w
  History-tasks (processes_tasks i w f) =
      let (ts, rest) = take_expired i.loop_now w.0.task_queue in
      let behind : World = (record (w.0) { task_queue = rest }, w.1) in
      rw
        (
          sym (take_expired-append i.loop_now w.0.task_queue),
          append_assoc ts (queued xkb behind) (posted_by_tasks ts behind),
        )
        (Perm.append (Perm.refl ts) (fire-posted_by_tasks ts behind))
