-- ===== src/EventLoop/Examples.antt =====
-- Runs of the event loop.
use mathlib.Core.List.{Perm, flat_map}
use flutter_embedder_wayland.Base.{
  ℕ, ◌≤◌, ◌≡◌, refl, ◌⊎◌, List, [], ◌∷◌, ◌++◌, map, arith, leb, if◌then◌else◌, keep, All,
}
use flutter_embedder_wayland.Base.Syscall.{done, fails, eagain, eintr}
use flutter_embedder_wayland.Base.{some}
use flutter_embedder_wayland.EventLoop.{
  EventLoop, draw_order, new, post_task, post_tasks, process_events, wake,
}
use flutter_embedder_wayland.EventLoop.Queue.{Task, push, take_expired, comparer}
use flutter_embedder_wayland.EventLoop.Drain.{is_due}
use flutter_embedder_wayland.EventLoop.Fifo.{IsAscending, has_time, fires_in_order}
use flutter_embedder_wayland.EventLoop.Process.{
  tasks, run_and_log, process_events-conserves, process_events-next,
}
use flutter_embedder_wayland.EventLoop.Progress.{Reach-drains}
use flutter_embedder_wayland.EventLoop.Confluence.{Locks, all_done, first, Locks-confluent}
use flutter_embedder_wayland.EventLoop.Threads.{
  Threads, drawn_task, Reach, draw, lock, here, next, idle, held, Reach-conserves,
}

-- Task 1 at time 20, tasks 2 and 3 at time 10, task 4 at time 30.
abbrev requests : List (ℕ × ℕ)
requests = (1, 20) ∷ (2, 10) ∷ (3, 10) ∷ (4, 30) ∷ []

abbrev loaded : EventLoop ℕ
unfolding post_tasks new
loaded = post_tasks requests (new 7)

fires : (take_expired 25 (post_tasks requests (new 7)).task_queue).0 ≡ 2 ∷ 3 ∷ 1 ∷ []
unfolding take_expired post_tasks post_task new push comparer
fires = refl

fires_in_order_example :
    (fired : List (ℕ × ℕ)) × ((take_expired 25 (post_tasks requests (new 7)).task_queue).0
      ≡ map (λ r. r.0) fired)
    × IsAscending fired
    × ((at : ℕ)
        → keep (has_time at) fired ≡ (if leb at 25 then keep (has_time at) requests else []))
fires_in_order_example = fires_in_order 7 25 requests (omega arith)

-- Task 2 posts task 9 for time 15 while it runs.
abbrev repost : ℕ → List (ℕ × ℕ)
repost t = if leb t 2 then (9, 15) ∷ [] else []

abbrev two_tasks : EventLoop ℕ
two_tasks = record {
  main_thread_id = 7;
  task_queue =
      record { order = 2; fire_time = 10; task = 2 }
      ∷ record { order = 1; fire_time = 20; task = 3 }
      ∷ [];
  last_order = 2;
}

round : (process_events (run_and_log repost) 16 (two_tasks, [])).0 ≡ 15
unfolding process_events take_expired post_tasks post_task push comparer
round = refl

process_events-conserves_example :
    let after = (process_events (run_and_log repost) 16 (two_tasks, [])).1 in
    (after.1 ≡ [] ++ tasks (keep (is_due 16) two_tasks.task_queue))
    × Perm
        (tasks (keep (is_due 16) two_tasks.task_queue) ++ tasks after.0.task_queue)
        (2 ∷ 3 ∷ 9 ∷ [])
unfolding comparer flat_map
process_events-conserves_example =
    process_events-conserves repost 16 two_tasks [] ((refl, tt), (tt, tt))

process_events-next_example :
    let (wakeup, (l', log')) = process_events (run_and_log repost) 16 (two_tasks, []) in
    All (λ t. wakeup ≤ t.fire_time) l'.task_queue
    × (((l'.task_queue ≡ []) × (wakeup ≡ 0))
        ⊎ ((t : Task ℕ) × (q : List (Task ℕ)) × (l'.task_queue ≡ t ∷ q) × (wakeup ≡ t.fire_time)))
unfolding comparer
process_events-next_example = process_events-next repost 16 two_tasks [] ((refl, tt), (tt, tt))

-- Two threads draw orders for one target time; the later draw gets the mutex first.
abbrev overtaken : (s : Threads ℕ) × Reach idle s
overtaken = (
  _,
  next (next (next here (draw 4 10)) (draw 5 10)) (lock [] (drawn_task (drawn 4) 5 10) _ refl),
)
  where
    drawn : ℕ → Threads ℕ
    drawn t = record idle {
      last_order = draw_order 0;
      posting = drawn_task idle t 10 ∷ [];
      posted = t ∷ [];
    }

Reach-conserves_example : Perm (held overtaken.0) (5 ∷ 4 ∷ [])
Reach-conserves_example = Reach-conserves overtaken.1

-- `EAGAIN` is tried again, `EINTR` is not.
wake_retries : wake (fails eagain ∷ fails eintr ∷ done 8 ∷ []) ≡ some (fails eintr, done 8 ∷ [])
unfolding wake
wake_retries = refl

Reach-drains_example :
    (u : Threads ℕ) × Reach overtaken.0 u
    × (u.posting ≡ [])
    × (u.task_queue ≡ [])
    × (u.expired ≡ [])
    × (u.posted ≡ 5 ∷ 4 ∷ [])
    × Perm u.ran (5 ∷ 4 ∷ [])
unfolding push
Reach-drains_example = Reach-drains 10 overtaken.1 (omega arith, tt) (omega arith, tt)

-- Two threads wait with their orders, and get the mutex in either sequence.
abbrev waiting : (s : Threads ℕ) × Reach idle s
waiting = (_, next (next here (draw 4 10)) (draw 5 10))

abbrev drawn : ℕ → ℕ → Task ℕ
drawn order t = record { order = order; fire_time = 10; task = t }

abbrev both_pushed : List (Task ℕ) → Threads ℕ
both_pushed queue = record waiting.0 { posting = []; task_queue = queue }

later_first : Locks (both_pushed (push (drawn 1 4) (push (drawn 2 5) []))) waiting.0
unfolding draw_order
later_first =
    first (lock [] (drawn 2 5) (drawn 1 4 ∷ []) refl) refl
      (first (lock [] (drawn 1 4) [] refl) refl all_done)

earlier_first : Locks (both_pushed (push (drawn 2 5) (push (drawn 1 4) []))) waiting.0
unfolding draw_order
earlier_first =
    first (lock (drawn 2 5 ∷ []) (drawn 1 4) [] refl) refl
      (first (lock [] (drawn 2 5) [] refl) refl all_done)

Locks-confluent_example :
    both_pushed (push (drawn 1 4) (push (drawn 2 5) []))
    ≡ both_pushed (push (drawn 2 5) (push (drawn 1 4) []))
Locks-confluent_example =
    Locks-confluent waiting.1 (omega arith) later_first refl earlier_first refl
