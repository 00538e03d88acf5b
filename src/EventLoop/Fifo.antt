-- ===== src/EventLoop/Fifo.antt =====
-- The order in which posted tasks run. The counter that `PostTask` draws the orders from makes the
-- queue a stable sort of the requests by their target times.
use flutter_embedder_wayland.Base.{
  ℕ, ◌+◌, ◌%◌, ◌^◌, ◌≤◌, ◌<◌, ◌≡◌, refl, sym, ◌∙◌, ap, Bool, List, [], ◌∷◌, ◌++◌, map, arith, ltb,
  leb, ◌==◌, if◌then◌else◌, length, keep, All,
}
use mathlib.Core.List.{append-nil, append_assoc}
use flutter_embedder_wayland.EventLoop.Queue.{
  Task, comparer, push, take_expired, IsOrdered, push-IsOrdered,
}
use flutter_embedder_wayland.EventLoop.Drain.{is_due, take_expired-keep}
use flutter_embedder_wayland.EventLoop.{EventLoop, new, post_task, post_tasks}

module _ {T : Type 0} where
  -- A request `(task, target time)` goes behind all those that are not later.
  abbrev pub schedule : T × ℕ → List (T × ℕ) → List (T × ℕ)
  schedule r [] = r ∷ []
  schedule r (x ∷ q) = if ltb r.1 x.1 then r ∷ x ∷ q else x ∷ schedule r q

  abbrev pub schedule_all : List (T × ℕ) → List (T × ℕ) → List (T × ℕ)
  schedule_all [] q = q
  schedule_all (r ∷ rs) q = schedule_all rs (schedule r q)

  -- The queue without the orders.
  abbrev pub view : List (Task T) → List (T × ℕ)
  view = map (λ t. (t.task, t.fire_time))

  abbrev pub OrdersUpTo : ℕ → List (Task T) → Type 0
  OrdersUpTo n = All (λ t. t.order ≤ n)

  push-schedule :
      (t : Task T) (n : ℕ) (q : List (Task T))
      → OrdersUpTo n q
      → n < t.order
      → view (push t q) ≡ schedule (t.task, t.fire_time) (view q)
  unfolding push comparer
  push-schedule t n [] h lt = refl
  push-schedule t n (x ∷ q) h lt = ground (arith, push-schedule t n q h.1 lt)

  push-OrdersUpTo :
      (t : Task T) (n : ℕ) (q : List (Task T))
      → OrdersUpTo n q
      → n < t.order
      → OrdersUpTo t.order (push t q)
  unfolding push
  push-OrdersUpTo t n [] h lt = omega arith
  push-OrdersUpTo t n (x ∷ q) h lt = ground (arith, push-OrdersUpTo t n q h.1 lt, weaken q h.1)
    where
      weaken : (q : List (Task T)) → OrdersUpTo n q → OrdersUpTo t.order q
      weaken [] h = tt
      weaken (x ∷ q) h = (omega arith, weaken q h.1)

  -- What holds of the queue between two calls.
  pub record Inv (l : EventLoop T) : Type 0 where
    pub ordered : IsOrdered l.task_queue
    pub drawn : OrdersUpTo l.last_order l.task_queue

  pub new-Inv : (thread : ℕ) → Inv (new thread)
  unfolding new
  new-Inv thread = record { ordered = tt; drawn = tt }

  -- Until the counter wraps, a post keeps the queue ordered and its orders drawn, and puts the task
  -- behind all those that are not later.
  pub post_task-schedule :
      (t : T) (at : ℕ) (l : EventLoop T)
      → Inv l
      → l.last_order + 1 < 2 ^ 64
      → Inv (post_task t at l)
        × (view (post_task t at l).task_queue ≡ schedule (t, at) (view l.task_queue))
        × ((post_task t at l).last_order ≡ l.last_order + 1)
  unfolding post_task
  post_task-schedule t at l v h =
      let next : (l.last_order + 1) % 2 ^ 64 ≡ l.last_order + 1 = omega arith in
      let task : Task T = record { order = l.last_order + 1; fire_time = at; task = t } in
      rw next (
        record {
          ordered = push-IsOrdered task l.task_queue v.ordered;
          drawn = push-OrdersUpTo task l.last_order l.task_queue v.drawn (omega arith);
        },
        push-schedule task l.last_order l.task_queue v.drawn (omega arith),
        refl,
      )

  pub post_tasks-schedule :
      (rs : List (T × ℕ)) (l : EventLoop T)
      → Inv l
      → l.last_order + length rs < 2 ^ 64
      → Inv (post_tasks rs l)
        × (view (post_tasks rs l).task_queue ≡ schedule_all rs (view l.task_queue))
  unfolding post_tasks
  post_tasks-schedule [] l v h = (v, refl)
  post_tasks-schedule ((t, at) ∷ rs) l v h =
      let (v', e, n) = post_task-schedule t at l v (omega arith) in
      let (v'', e') = post_tasks-schedule rs (post_task t at l) v' (omega arith) in
      (v'', e' ∙ ap (schedule_all rs) e)

  abbrev pub due : ℕ → T × ℕ → Bool
  due now r = leb r.1 now

  abbrev pub has_time : ℕ → T × ℕ → Bool
  has_time at r = r.1 == at

  abbrev NotBefore : ℕ → List (T × ℕ) → Type 0
  NotBefore at = All (λ r. at ≤ r.1)

  -- The target times do not fall along the list.
  abbrev pub IsAscending : List (T × ℕ) → Type 0
  IsAscending [] = Unit {0}
  IsAscending (r ∷ rs) = NotBefore r.1 rs × IsAscending rs

  NotBefore-mono : (a b : ℕ) (q : List (T × ℕ)) → a ≤ b → NotBefore b q → NotBefore a q
  NotBefore-mono a b [] h k = tt
  NotBefore-mono a b (x ∷ q) h k = (omega arith, NotBefore-mono a b q h k.1)

  NotBefore-schedule :
      (a : ℕ) (r : T × ℕ) (q : List (T × ℕ)) → a ≤ r.1 → NotBefore a q → NotBefore a (schedule r q)
  NotBefore-schedule a r [] h k = (h, tt)
  NotBefore-schedule a r (x ∷ q) h k = ground (arith, NotBefore-schedule a r q h k.1)

  schedule-IsAscending : (r : T × ℕ) (q : List (T × ℕ)) → IsAscending q → IsAscending (schedule r q)
  schedule-IsAscending r [] h = (tt, tt)
  schedule-IsAscending r (x ∷ q) h =
      ground
        (arith, NotBefore-mono r.1 x.1 q, NotBefore-schedule x.1 r q, schedule-IsAscending r q h.1)

  schedule_all-IsAscending : (rs q : List (T × ℕ)) → IsAscending q → IsAscending (schedule_all rs q)
  schedule_all-IsAscending [] q h = h
  schedule_all-IsAscending (r ∷ rs) q h =
      schedule_all-IsAscending rs (schedule r q) (schedule-IsAscending r q h)

  keep-has_time-NotBefore :
      (at a : ℕ) (q : List (T × ℕ)) → at < a → NotBefore a q → keep (has_time at) q ≡ []
  keep-has_time-NotBefore at a [] h k = refl
  keep-has_time-NotBefore at a (x ∷ q) h k = ground (arith, keep-has_time-NotBefore at a q h k.1)

  keep-schedule :
      (at : ℕ) (r : T × ℕ) (q : List (T × ℕ))
      → IsAscending q
      → keep (has_time at) (schedule r q) ≡ keep (has_time at) q ++ keep (has_time at) (r ∷ [])
  keep-schedule at r [] h = refl
  keep-schedule at r (x ∷ q) h = ground (
    arith,
    keep-has_time-NotBefore at x.1 q,
    keep-schedule at r q h.1,
    append-nil (keep (has_time at) q),
  )

  keep-schedule_all :
      (at : ℕ) (rs q : List (T × ℕ))
      → IsAscending q
      → keep (has_time at) (schedule_all rs q) ≡ keep (has_time at) q ++ keep (has_time at) rs
  keep-schedule_all at [] q h = sym (append-nil _)
  keep-schedule_all at (r ∷ rs) q h = ground (
    arith,
    keep-schedule_all at rs (schedule r q) (schedule-IsAscending r q h),
    keep-schedule at r q h,
    append_assoc (keep (has_time at) q) (keep (has_time at) (r ∷ [])) (keep (has_time at) rs),
  )

  keep-due :
      (at now : ℕ) (q : List (T × ℕ))
      → keep (has_time at) (keep (due now) q) ≡ (if leb at now then keep (has_time at) q else [])
  keep-due at now [] = ground arith
  keep-due at now (x ∷ q) = ground (arith, keep-due at now q)

  NotBefore-keep : (a now : ℕ) (q : List (T × ℕ)) → NotBefore a q → NotBefore a (keep (due now) q)
  NotBefore-keep a now [] h = tt
  NotBefore-keep a now (x ∷ q) h = ground (arith, NotBefore-keep a now q h.1)

  keep-IsAscending : (now : ℕ) (q : List (T × ℕ)) → IsAscending q → IsAscending (keep (due now) q)
  keep-IsAscending now [] h = tt
  keep-IsAscending now (x ∷ q) h =
      ground (arith, NotBefore-keep x.1 now q h.0, keep-IsAscending now q h.1)

  view-keep :
      (now : ℕ) (q : List (Task T))
      → map (λ t. t.task) (keep (is_due now) q) ≡ map (λ r. r.0) (keep (due now) (view q))
  view-keep now [] = refl
  view-keep now (t ∷ q) = ground (arith, view-keep now q)

  -- The tasks that a round takes after any sequence of fewer than 2 ^ 64 posts to a new loop: the
  -- requests that are due, by target time, and those with one target time in the order of posting.
  pub fires_in_order :
      (thread now : ℕ) (rs : List (T × ℕ))
      → length rs < 2 ^ 64
      → (fired : List (T × ℕ)) × ((take_expired now (post_tasks rs (new thread)).task_queue).0
          ≡ map (λ r. r.0) fired)
        × IsAscending fired
        × ((at : ℕ) → keep (has_time at) fired ≡ (if leb at now then keep (has_time at) rs else []))
  unfolding new
  fires_in_order thread now rs h =
      let l : EventLoop T = new thread in
      let (v, e) = post_tasks-schedule rs l (new-Inv thread) (omega arith) in
      (
        keep (due now) (schedule_all rs []),
        ap (λ p. p.0) (take_expired-keep now (post_tasks rs l).task_queue v.ordered)
            ∙ view-keep now (post_tasks rs l).task_queue
            ∙ ap (λ q. map (λ r. r.0) (keep (due now) q)) e,
        keep-IsAscending now (schedule_all rs []) (schedule_all-IsAscending rs [] tt),
        λ at. rw (keep-due at now (schedule_all rs []), keep-schedule_all at rs [] tt) refl,
      )
