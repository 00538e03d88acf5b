-- ===== src/MainLoop/History/Times.antt =====
-- When the tasks of the engine run, over any run of the main loop.
use flutter_embedder_wayland.Base.{◌≡◌, ap, List, map, keep}
use flutter_embedder_wayland.EventLoop.{EventLoop, post_task}
use flutter_embedder_wayland.EventLoop.Queue.{take_expired, IsOrdered, push-IsOrdered}
use flutter_embedder_wayland.EventLoop.Drain.{is_due, take_expired-keep}
use flutter_embedder_wayland.EventLoop.Process.{take_expired-IsOrdered, process_events_keeps}
use flutter_embedder_wayland.Keyboard.XkbCommon.{Xkb}
use flutter_embedder_wayland.MainLoop.Listeners.{Changed, Changed_keeps}
use flutter_embedder_wayland.MainLoop.History.{
  History, nothing, in_turn, calls_only, dispatches, repeats_key, threads_act, answers_vsync,
  watches_memory, processes_tasks,
}
use flutter_embedder_wayland.MainLoop.{Display, Call, Moment, RoundInput}

module _ {Keymap State T : Type 0} (xkb : Xkb Keymap State) where
  abbrev pub HasOrder : EventLoop T × Display Keymap State → Type 0
  HasOrder w = IsOrdered w.0.task_queue

  pub Changed-HasOrder :
      (w v : EventLoop T × Display Keymap State) → Changed xkb w v → HasOrder w → HasOrder v
  unfolding post_task
  Changed-HasOrder =
      Changed_keeps xkb HasOrder (λ v i k m e h. h) (λ v s h. h) (λ v h. h)
        (λ v t at h. push-IsOrdered _ v.0.task_queue h)

module _ {Keymap State T : Type 0} (xkb : Xkb Keymap State)
    (on_task_expired : T → EventLoop T × Display Keymap State → EventLoop T × Display Keymap State)
    (dispatch : EventLoop T × Display Keymap State → EventLoop T × Display Keymap State)
    (threads : Moment
      → RoundInput
      → EventLoop T × Display Keymap State
      → EventLoop T × Display Keymap State) where
  abbrev World : Type 0
  World = EventLoop T × Display Keymap State

  -- Each time the queue is in its order, and the tasks that are run are those whose time has come, in
  -- that order.
  abbrev pub AreOnTime :
      {Fine : RoundInput → Type 0} {u v : World} {cs : List Call}
      → History xkb on_task_expired dispatch threads Fine u cs v
      → Type 0
  AreOnTime (in_turn h k) = AreOnTime h × AreOnTime k
  AreOnTime (processes_tasks i w f) =
      HasOrder xkb w
      × ((take_expired i.loop_now w.0.task_queue).0
          ≡ map (λ t. t.task) (keep (is_due i.loop_now) w.0.task_queue))
  AreOnTime _ = Unit {0}

  module _ (tasks : (t : T) (w : World) → Changed xkb w (on_task_expired t w))
      (listeners : (w : World) → Changed xkb w (dispatch w))
      (others : (m : Moment) (i : RoundInput) (w : World) → Changed xkb w (threads m i w)) where
    pub History-AreOnTime :
        {Fine : RoundInput → Type 0} {u v : World} {cs : List Call}
        (h : History xkb on_task_expired dispatch threads Fine u cs v)
        → HasOrder xkb u
        → HasOrder xkb v × AreOnTime h
    History-AreOnTime (nothing w) o = (o, tt)
    History-AreOnTime (in_turn h k) o =
        let (mid, first) = History-AreOnTime h o in
        let (last, second) = History-AreOnTime k mid in (last, (first, second))
    History-AreOnTime (calls_only c w e) o = (o, tt)
    History-AreOnTime (dispatches w) o = (Changed-HasOrder xkb w (dispatch w) (listeners w) o, tt)
    History-AreOnTime (threads_act m i w f) o =
        (Changed-HasOrder xkb w (threads m i w) (others m i w) o, tt)
    History-AreOnTime (repeats_key w k m e) o = (o, tt)
    History-AreOnTime (answers_vsync i w f) o = (o, tt)
    History-AreOnTime (watches_memory i w o' w' f e) o = (o, tt)
    History-AreOnTime (processes_tasks i w f) o = (
      process_events_keeps on_task_expired (HasOrder xkb)
          (λ t v. Changed-HasOrder xkb v (on_task_expired t v) (tasks t v)) i.loop_now w.0 w.1
          (take_expired-IsOrdered i.loop_now w.0.task_queue o),
      (o, ap (λ r. r.0) (take_expired-keep i.loop_now w.0.task_queue o)),
    )
