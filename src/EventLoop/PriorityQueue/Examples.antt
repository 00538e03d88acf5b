-- ===== src/EventLoop/PriorityQueue/Examples.antt =====
-- Runs of the event loop over a queue that is not sorted.
use native.Mathlib.Nat.{ℕ_set}
use mathlib.Core.List.{Perm}
use flutter_embedder_wayland.Base.{ℕ, ◌≡◌, refl, List, [], ◌∷◌, arith, some}
use flutter_embedder_wayland.EventLoop.{draw_order, next_event_time}
use flutter_embedder_wayland.EventLoop.Queue.{Task, comparer, push}
use flutter_embedder_wayland.EventLoop.Threads.{Threads, Reach, draw, lock, here, next, idle}
use flutter_embedder_wayland.EventLoop.PriorityQueue.{
  HeapThreads, HeapReach, draw_task, push_locked, drain_locked, at_start, and_then, idle_heap,
  drain, top_time,
}
use flutter_embedder_wayland.EventLoop.PriorityQueue.Simulation.{
  shown, stored, HeapReach-refines, Reach-refined,
}
use flutter_embedder_wayland.EventLoop.PriorityQueue.Unsorted.{
  unsorted, extract, search_top, remove_top,
}

abbrev task : ℕ → ℕ → ℕ → Task ℕ
task order at t = record { order = order; fire_time = at; task = t }

-- Tasks 4 for time 30, 5 for time 10 and 6 for time 10, kept as they came.
abbrev stored_tasks : List (Task ℕ)
stored_tasks = task 3 10 6 ∷ task 2 10 5 ∷ task 1 30 4 ∷ []

-- Two turns, and a third for the test that ends the loop.
drains_in_order : drain unsorted 3 20 stored_tasks ≡ some (5 ∷ 6 ∷ [], task 1 30 4 ∷ [])
unfolding drain extract search_top remove_top comparer
drains_in_order = refl

-- Task 4 for time 30 and task 5 for time 10 are posted, and `ProcessEvents` runs at time 20.
abbrev drained : (s : HeapThreads ℕ (List (Task ℕ))) × HeapReach unsorted (idle_heap unsorted) s
unfolding draw_order drain extract search_top remove_top comparer
drained =
    let pushed =
      and_then
        (and_then (and_then (and_then at_start (draw_task 4 30)) (draw_task 5 10))
          (push_locked (task 2 10 5 ∷ []) (task 1 30 4) [] refl))
        (push_locked [] (task 2 10 5) [] refl) in
    (_, and_then pushed (drain_locked 2 20 (5 ∷ []) (task 1 30 4 ∷ []) refl refl))

HeapReach-refines_example :
    (l : List (Task ℕ)) × Reach idle (shown drained.0 l)
    × Perm (task 1 30 4 ∷ []) l
    × (top_time unsorted (task 1 30 4 ∷ []) ≡ next_event_time l)
unfolding draw_order drained
HeapReach-refines_example = HeapReach-refines unsorted ℕ_set drained.1 (omega arith)

abbrev pushed_list : (v : Threads ℕ) × Reach idle v
unfolding draw_order
pushed_list = (_, next (next here (draw 4 30)) (lock [] (task 1 30 4) [] refl))

Reach-refined_example :
    (q : List (Task ℕ)) × HeapReach unsorted (idle_heap unsorted) (stored pushed_list.0 q)
    × Perm q (push (task 1 30 4) [])
unfolding push pushed_list
Reach-refined_example = Reach-refined unsorted ℕ_set pushed_list.1 (omega arith)
