-- ===== src/EventLoop.antt =====
-- src/event_loop.h and src/event_loop.cc: the platform event loop of the main thread, and
-- `RunFlutterTask` of src/wayland_display.cc, the callback that it is made with. The clock is an
-- argument of each call, and the mutex makes each of the locked parts one step.
pub mod Queue
pub mod Drain
pub mod Fifo
pub mod Process
pub mod Threads
pub mod Progress
pub mod Orders
pub mod PriorityQueue
pub mod Confluence
mod Examples
use flutter_embedder_wayland.Base.{
  ℕ, ◌+◌, ◌%◌, ◌^◌, Bool, true, false, List, [], ◌∷◌, Option, none, some, ◌==◌, if◌then◌else◌,
}
use flutter_embedder_wayland.Base.Syscall.{Rv, is_eagain, retry}
use Queue.{Task, push, take_expired}

-- The members that the tasks go through; `last_order` is the static `sGlobalTaskOrder`.
pub record EventLoop (T : Type 0) : Type 0 where
  pub main_thread_id : ℕ
  pub task_queue : List (Task T)
  pub last_order : ℕ  -- uint64_t

-- The constructor: an empty queue.
unfoldable pub new : {T : Type 0} → ℕ → EventLoop T
new main_thread_id = record { main_thread_id = main_thread_id; task_queue = []; last_order = 0 }

unfoldable pub runs_tasks_on_current_thread : {T : Type 0} → ℕ → EventLoop T → Bool
runs_tasks_on_current_thread this_thread l = this_thread == l.main_thread_id

-- `Wake`: writes to the event descriptor until the result is not `EAGAIN`.
unfoldable pub wake : List Rv → Option (Rv × List Rv)
unfolding retry
wake = retry is_eagain

-- `++sGlobalTaskOrder`.
unfoldable pub draw_order : ℕ → ℕ
draw_order last_order = (last_order + 1) % 2 ^ 64

module _ {T : Type 0} where
  -- `PostTask`, up to the call of `Wake` that ends it.
  unfoldable pub post_task : T → ℕ → EventLoop T → EventLoop T
  unfolding draw_order
  post_task flutter_task target_time l =
      let order = draw_order l.last_order in
      let task : Task T = record { order = order; fire_time = target_time; task = flutter_task } in
      record l { task_queue = push task l.task_queue; last_order = order }

  -- The requests `(task, target time)` posted one after the other.
  unfoldable pub post_tasks : List (T × ℕ) → EventLoop T → EventLoop T
  post_tasks [] l = l
  post_tasks ((t, at) ∷ rs) l = post_tasks rs (post_task t at l)

  -- The last part of `ProcessEvents`: the time of the next event, or 0 if there is none.
  unfoldable pub next_event_time : List (Task T) → ℕ
  next_event_time [] = 0
  next_event_time (top ∷ q) = top.fire_time

  -- The second part: the callback on each expired task. It may change the world `S` at will.
  unfoldable pub fire {κ} : {S : Type κ} → (T → S → S) → List T → S → S
  fire on_task_expired [] s = s
  fire on_task_expired (t ∷ ts) s = fire on_task_expired ts (on_task_expired t s)

  -- `ProcessEvents` at time `now`, for a world `S` that holds the event loop besides the rest.
  unfoldable pub process_events {κ} :
      {S : Type κ}
      → (T → EventLoop T × S → EventLoop T × S)
      → ℕ
      → EventLoop T × S
      → ℕ × (EventLoop T × S)
  unfolding take_expired fire next_event_time
  process_events on_task_expired now (l, s) =
      let (expired, rest) = take_expired now l.task_queue in
      let (l', s') = fire on_task_expired expired (record l { task_queue = rest }, s) in
      (next_event_time l'.task_queue, (l', s'))

-- `RunFlutterTask`: the engine handle may still be null; a failed run is only logged. `run_task`
-- is `FlutterEngineRunTask`.
unfoldable pub run_flutter_task {κ} :
    {T : Type 0} {W : Type κ} → (T → W → Bool × W) → Bool → T → W → W
run_flutter_task run_task engine task w = if engine then (run_task task w).1 else w
