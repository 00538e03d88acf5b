-- ===== src/EventLoop/PriorityQueue/Simulation.antt =====
-- The event loop over any `std::priority_queue` and the event loop over the sorted list of its
-- elements go through the same states.
use mathlib.Core.List.{Perm}
use mathlib.Core.List.Perm
use flutter_embedder_wayland.Base.{suc, ◌^◌, ◌≤◌, ◌<◌, ◌≡◌, sym, subst, List, [], arith, length}
use flutter_embedder_wayland.EventLoop.{next_event_time}
use flutter_embedder_wayland.EventLoop.Queue.{Task, push, push-perm, take_expired}
use flutter_embedder_wayland.EventLoop.Threads.{
  Threads, Step, Reach, draw, lock, take, run, here, next, idle, Reach-Inv, idle-Inv,
}
use flutter_embedder_wayland.EventLoop.Orders.{Reach-Drawn}
use flutter_embedder_wayland.EventLoop.PriorityQueue.{
  PriorityQueue, HeapThreads, HeapStep, draw_task, push_locked, drain_locked, run_task, HeapReach,
  at_start, and_then, idle_heap, top_time,
}
use flutter_embedder_wayland.EventLoop.PriorityQueue.Front.{
  Sorts, drain_ends, drain_enough, top_time-next_event_time,
}

module _ {T Q : Type 0} where
  -- What `s` shows with the list `l` in the place of the queue.
  abbrev pub shown : HeapThreads T Q → List (Task T) → Threads T
  shown s l = record {
    last_order = s.last_order;
    posting = s.posting;
    task_queue = l;
    expired = s.expired;
    ran = s.ran;
    posted = s.posted;
  }

  -- What `v` shows with the queue `q` in the place of the list.
  abbrev pub stored : Threads T → Q → HeapThreads T Q
  stored v q = record {
    last_order = v.last_order;
    posting = v.posting;
    task_queue = q;
    expired = v.expired;
    ran = v.ran;
    posted = v.posted;
  }

module _ {T Q : Type 0} (pq : PriorityQueue T Q) (T_set : IsSet T) where
  Reach-Sorts :
      (v : Threads T) (q : Q)
      → Reach idle v
      → length v.posted < 2 ^ 64
      → Perm (pq.items q) v.task_queue
      → Sorts pq T_set v.task_queue q
  Reach-Sorts v q r b p = (p, (Reach-Inv idle-Inv r).ordered, (Reach-Drawn r b).queued_distinct)

  push_both :
      (t : Task T) (q : Q) (l : List (Task T))
      → Perm (pq.items q) l
      → Perm (pq.items (pq.push_item t q)) (push t l)
  push_both t q l p =
      Perm.trans (pq.items-push_item t q) (Perm.trans (Perm.cons t p) (Perm.symm (push-perm t l)))

  follow_heap :
      {s u : HeapThreads T Q}
      → HeapStep pq s u
      → length s.posted < 2 ^ 64
      → (l : List (Task T)) → Reach idle (shown s l)
      → Perm (pq.items s.task_queue) l
      → (l' : List (Task T)) × Reach idle (shown u l') × Perm (pq.items u.task_queue) l'
  follow_heap {s} (draw_task t at) b l r p = (l, next r (draw t at), p)
  follow_heap {s} (push_locked xs t ys e) b l r p =
      (push t l, next r (lock xs t ys e), push_both t s.task_queue l p)
  follow_heap {s} {u} (drain_locked fuel now ts q e f) b l r p =
      let sorts = Reach-Sorts (shown s l) s.task_queue r b p in
      let (same, p') = drain_ends pq T_set fuel now s.task_queue l ts q sorts f in
      (
        (take_expired now l).1,
        subst (λ es. Reach idle (record (shown u (take_expired now l).1) { expired = es }))
            (sym same) (next r (take now e)),
        p',
      )
  follow_heap {s} (run_task t ts e) b l r p = (l, next r (run t ts e), p)

  HeapStep-posted : {s u : HeapThreads T Q} → HeapStep pq s u → length s.posted ≤ length u.posted
  HeapStep-posted (draw_task t at) = omega arith
  HeapStep-posted (push_locked xs t ys e) = omega arith
  HeapStep-posted (drain_locked fuel now ts q e f) = omega arith
  HeapStep-posted (run_task t ts e) = omega arith

  HeapReach-follows :
      {s : HeapThreads T Q}
      → HeapReach pq (idle_heap pq) s
      → length s.posted < 2 ^ 64
      → (l : List (Task T)) × Reach idle (shown s l) × Perm (pq.items s.task_queue) l
  HeapReach-follows at_start b = ([], here, rw pq.items-new_queue (Perm.refl []))
  HeapReach-follows (and_then {u} w st) b =
      let before : length u.posted < 2 ^ 64 = omega (arith, HeapStep-posted st) in
      let (l, r, p) = HeapReach-follows w before in follow_heap st before l r p

  -- With any `std::priority_queue`, tasks of a type that is a set, and fewer than 2 ^ 64 posts: whatever the threads have come to,
  -- they can come to as well over the sorted list in its place, with the same counter and the same
  -- tasks waiting, taken, run and posted; the list has the elements of the queue, and the time that
  -- `ProcessEvents` would return is the one of the list.
  pub HeapReach-refines :
      {s : HeapThreads T Q}
      → HeapReach pq (idle_heap pq) s
      → length s.posted < 2 ^ 64
      → (l : List (Task T)) × Reach idle (shown s l)
        × Perm (pq.items s.task_queue) l
        × (top_time pq s.task_queue ≡ next_event_time l)
  HeapReach-refines {s} w b =
      let (l, r, p) = HeapReach-follows w b in
      let sorts = Reach-Sorts (shown s l) s.task_queue r b p in
      (l, r, p, top_time-next_event_time pq T_set s.task_queue l sorts)

  follow_list :
      {v w : Threads T}
      → Step v w
      → length v.posted < 2 ^ 64
      → Reach idle v
      → (q : Q) → HeapReach pq (idle_heap pq) (stored v q)
      → Perm (pq.items q) v.task_queue
      → (q' : Q) × HeapReach pq (idle_heap pq) (stored w q') × Perm (pq.items q') w.task_queue
  follow_list (draw t at) b r q h p = (q, and_then h (draw_task t at), p)
  follow_list {v} (lock xs t ys e) b r q h p =
      (pq.push_item t q, and_then h (push_locked xs t ys e), push_both t q v.task_queue p)
  follow_list {v} (take now e) b r q h p =
      let sorts = Reach-Sorts v q r b p in
      let (ts, q', f) = drain_enough pq T_set now q v.task_queue sorts in
      let (same, p') = drain_ends pq T_set _ now q v.task_queue ts q' sorts f in
      let way = and_then h (drain_locked (suc (length v.task_queue)) now ts q' e f) in
      (
        q',
        subst (λ es. HeapReach pq (idle_heap pq) (record (stored v q') { expired = es })) same way,
        p',
      )
  follow_list (run t ts e) b r q h p = (q, and_then h (run_task t ts e), p)

  Step-posted : {v w : Threads T} → Step v w → length v.posted ≤ length w.posted
  Step-posted (draw t at) = omega arith
  Step-posted (lock xs t ys e) = omega arith
  Step-posted (take now e) = omega arith
  Step-posted (run t ts e) = omega arith

  -- Conversely, with tasks of a type that is a set and fewer than 2 ^ 64 posts, all that the threads can come to over the sorted list
  -- they can come to over any `std::priority_queue`, with a queue that has the elements of the list.
  pub Reach-refined :
      {v : Threads T}
      → Reach idle v
      → length v.posted < 2 ^ 64
      → (q : Q) × HeapReach pq (idle_heap pq) (stored v q) × Perm (pq.items q) v.task_queue
  Reach-refined here b = (pq.new_queue, at_start, rw pq.items-new_queue (Perm.refl []))
  Reach-refined (next {u} r st) b =
      let before : length u.posted < 2 ^ 64 = omega (arith, Step-posted st) in
      let (q, h, p) = Reach-refined r before in follow_list st before r q h p
