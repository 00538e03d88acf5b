-- ===== src/EventLoop/PriorityQueue.antt =====
-- The platform event loop (src/event_loop.h, src/event_loop.cc) over `std::priority_queue`, of which
-- only what the standard promises is known: nothing of how the elements are stored.
pub mod Front
pub mod Simulation
pub mod Unsorted
mod Examples
use mathlib.Core.List.{Perm}
use mathlib.Core.Option.{map}
use flutter_embedder_wayland.Base.{
  ℕ, zero, suc, ◌≡◌, Bool, false, List, [], ◌∷◌, ◌++◌, Option, none, some, ltb, if◌then◌else◌, All,
}
use flutter_embedder_wayland.EventLoop.{draw_order}
use flutter_embedder_wayland.EventLoop.Queue.{Task, comparer}

-- `std::priority_queue<Task, std::deque<Task>, Task::Comparer>`: its elements in some order, the
-- members that the event loop calls, and what they do. `top` is `none` where `empty()` holds.
pub record PriorityQueue (T Q : Type 0) : Type 0 where
  pub items : Q → List (Task T)
  pub new_queue : Q
  pub push_item : Task T → Q → Q
  pub top : Q → Option (Task T)
  pub pop : Q → Q
  pub items-new_queue : items new_queue ≡ []
  pub items-push_item : (t : Task T) (q : Q) → Perm (items (push_item t q)) (t ∷ items q)
  pub top_none : (q : Q) → top q ≡ none → items q ≡ []
  -- No element comes before the top, and `pop` removes the top.
  pub top_first : (t : Task T) (q : Q) → top q ≡ some t → All (λ x. comparer t x ≡ false) (items q)
  pub items-pop : (t : Task T) (q : Q) → top q ≡ some t → Perm (items q) (t ∷ items (pop q))

-- The members of the event loop and what passes through them, as in `EventLoop.Threads.Threads`.
pub record HeapThreads (T Q : Type 0) : Type 0 where
  pub last_order : ℕ
  pub posting : List (Task T)
  pub task_queue : Q
  pub expired : List T
  pub ran : List T
  pub posted : List T

module _ {T Q : Type 0} (pq : PriorityQueue T Q) where
  open pq use {items, new_queue, push_item, top, pop}

  -- The first loop of `ProcessEvents` as it is written: the expired tasks, and the queue that is
  -- left. `none`: more turns than the fuel.
  unfoldable pub drain : ℕ → ℕ → Q → Option (List T × Q)
  drain zero now q = none
  drain (suc n) now q = elim (top q) [
    | none ↦ some ([], q)
    | some t ↦
        let turns = drain n now (pop q) in
        if ltb now t.fire_time then some ([], q) else map (λ r. (t.task ∷ r.0, r.1)) turns
  ]

  -- The last part of `ProcessEvents`.
  unfoldable pub top_time : Q → ℕ
  top_time q = elim (top q) [ none ↦ 0 | some t ↦ t.fire_time ]

  pub data HeapStep (s : HeapThreads T Q) : HeapThreads T Q → Type 0 where
    -- `PostTask` in some thread: the order is drawn and the task filled in.
    draw_task :
        (t : T) (at : ℕ)
        → HeapStep s (record s {
          last_order = draw_order s.last_order;
          posting =
              record { order = draw_order s.last_order; fire_time = at; task = t } ∷ s.posting;
          posted = t ∷ s.posted;
        })
    -- One of the waiting threads holds the mutex and pushes its task.
    push_locked :
        (xs : List (Task T)) (t : Task T) (ys : List (Task T))
        → s.posting ≡ xs ++ t ∷ ys
        → HeapStep s (record s { posting = xs ++ ys; task_queue = push_item t s.task_queue })
    -- `ProcessEvents` at time `now` holds the mutex; its loop ends.
    drain_locked :
        (fuel now : ℕ) (ts : List T) (q : Q)
        → s.expired ≡ []
        → drain fuel now s.task_queue ≡ some (ts, q)
        → HeapStep s (record s { task_queue = q; expired = ts })
    -- The callback on the next expired task.
    run_task :
        (t : T) (ts : List T)
        → s.expired ≡ t ∷ ts
        → HeapStep s (record s { expired = ts; ran = s.ran ++ t ∷ [] })

  pub data HeapReach (s : HeapThreads T Q) : HeapThreads T Q → Type 0 where
    at_start : HeapReach s s
    and_then : {u v : HeapThreads T Q} → HeapReach s u → HeapStep u v → HeapReach s v

  abbrev pub idle_heap : HeapThreads T Q
  idle_heap = record {
    last_order = 0;
    posting = [];
    task_queue = new_queue;
    expired = [];
    ran = [];
    posted = [];
  }
