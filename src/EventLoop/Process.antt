-- ===== src/EventLoop/Process.antt =====
-- A whole round of `ProcessEvents`, with tasks that post further tasks while they run.
use mathlib.Core.List.{Perm, perm_middle, append-nil, append_assoc, flat_map}
use mathlib.Core.List.Perm
use flutter_embedder_wayland.Base.{
  ℕ, ◌≤◌, ◌≡◌, refl, sym, ◌∙◌, ap, ◌⊎◌, inl, inr, Bool, false, not, List, [], ◌∷◌, ◌++◌, map, arith,
  keep, All,
}
use flutter_embedder_wayland.EventLoop.Queue.{
  push-perm, Task, comparer, push, take_expired, IsOrdered, push-IsOrdered,
}
use flutter_embedder_wayland.EventLoop.Drain.{is_due, take_expired-keep, comparer-fire_time}
use flutter_embedder_wayland.EventLoop.{
  EventLoop, post_task, post_tasks, next_event_time, fire, process_events,
}

module _ {T : Type 0} where
  abbrev pub tasks : List (Task T) → List T
  tasks = map (λ t. t.task)

  -- An engine whose task `t` makes the posts `posts t` while it runs, with a log of what has run.
  abbrev pub run_and_log : (T → List (T × ℕ)) → T → EventLoop T × List T → EventLoop T × List T
  run_and_log posts t (l, log) = (post_tasks (posts t) l, log ++ t ∷ [])

  abbrev pub posted : (T → List (T × ℕ)) → T → List T
  posted posts t = map (λ r. r.0) (posts t)

  pub tasks-push : (t : Task T) (q : List (Task T)) → Perm (tasks (push t q)) (t.task ∷ tasks q)
  tasks-push t q = Perm.map (λ x. x.task) (push-perm t q)

  post_tasks-perm :
      (rs : List (T × ℕ)) (l : EventLoop T)
      → Perm (tasks (post_tasks rs l).task_queue) (tasks l.task_queue ++ map (λ r. r.0) rs)
  unfolding post_tasks post_task
  post_tasks-perm [] l = rw append-nil (Perm.refl _)
  post_tasks-perm ((t, at) ∷ rs) l = Perm.trans (post_tasks-perm rs (post_task t at l)) (
      Perm.trans (Perm.append (tasks-push _ l.task_queue) (Perm.refl (map (λ r. r.0) rs)))
        (Perm.symm (perm_middle (tasks l.task_queue) (map (λ r. r.0) rs))))

  post_tasks-IsOrdered :
      (rs : List (T × ℕ)) (l : EventLoop T)
      → IsOrdered l.task_queue
      → IsOrdered (post_tasks rs l).task_queue
  unfolding post_tasks post_task
  post_tasks-IsOrdered [] l h = h
  post_tasks-IsOrdered ((t, at) ∷ rs) l h =
      post_tasks-IsOrdered rs (post_task t at l) (push-IsOrdered _ l.task_queue h)

  All-keep {κ} :
      (P : Task T → Type κ) (p : Task T → Bool) (q : List (Task T)) → All P q → All P (keep p q)
  All-keep P p [] h = tt
  All-keep P p (t ∷ q) h = ground (arith, All-keep P p q h.1)

  keep-IsOrdered : (p : Task T → Bool) (q : List (Task T)) → IsOrdered q → IsOrdered (keep p q)
  keep-IsOrdered p [] h = tt
  keep-IsOrdered p (t ∷ q) h =
      ground (arith, All-keep (λ x. comparer t x ≡ false) p q h.0, keep-IsOrdered p q h.1)

  pub take_expired-IsOrdered :
      (now : ℕ) (q : List (Task T)) → IsOrdered q → IsOrdered (take_expired now q).1
  take_expired-IsOrdered now q h =
      rw (take_expired-keep now q h) (keep-IsOrdered (λ t. not (is_due now t)) q h)

  pub take_expired-append :
      (now : ℕ) (q : List (Task T))
      → (take_expired now q).0 ++ tasks (take_expired now q).1 ≡ tasks q
  unfolding take_expired
  take_expired-append now [] = refl
  take_expired-append now (t ∷ q) = ground (arith, take_expired-append now q)

  next_event_time_lem :
      (q : List (Task T))
      → IsOrdered q
      → All (λ t. next_event_time q ≤ t.fire_time) q
        × (((q ≡ []) × (next_event_time q ≡ 0))
            ⊎ ((t : Task T) × (r : List (Task T)) × (q ≡ t ∷ r)
                × (next_event_time q ≡ t.fire_time)))
  unfolding next_event_time
  next_event_time_lem [] h = (tt, inl (refl, refl))
  next_event_time_lem (t ∷ q) h = ((omega arith, head_first q h.0), inr (t, q, refl, refl))
    where
      head_first :
          (q : List (Task T))
          → All (λ x. comparer t x ≡ false) q
          → All (λ x. t.fire_time ≤ x.fire_time) q
      head_first [] h = tt
      head_first (x ∷ q) h = (comparer-fire_time t x h.0, head_first q h.1)

  module _ (posts : T → List (T × ℕ)) where
    fire-log :
        (ts : List T) (l : EventLoop T) (log : List T)
        → (fire (run_and_log posts) ts (l, log)).1 ≡ log ++ ts
    unfolding fire
    fire-log [] l log = sym (append-nil log)
    fire-log (t ∷ ts) l log =
        fire-log ts (post_tasks (posts t) l) (log ++ t ∷ []) ∙ append_assoc log (t ∷ []) ts

    fire-IsOrdered :
        (ts : List T) (l : EventLoop T) (log : List T)
        → IsOrdered l.task_queue
        → IsOrdered (fire (run_and_log posts) ts (l, log)).0.task_queue
    unfolding fire
    fire-IsOrdered [] l log h = h
    fire-IsOrdered (t ∷ ts) l log h =
        fire-IsOrdered ts _ (log ++ t ∷ []) (post_tasks-IsOrdered (posts t) l h)

    fire-perm :
        (ts : List T) (l : EventLoop T) (log : List T)
        → Perm
            (tasks (fire (run_and_log posts) ts (l, log)).0.task_queue)
            (tasks l.task_queue ++ flat_map (posted posts) ts)
    unfolding fire flat_map
    fire-perm [] l log = rw append-nil (Perm.refl _)
    fire-perm (t ∷ ts) l log = Perm.trans (fire-perm ts _ (log ++ t ∷ [])) (
        rw (← append_assoc)
          (Perm.append (post_tasks-perm (posts t) l) (Perm.refl (flat_map (posted posts) ts))))

    -- From an ordered queue, with tasks that post tasks when they run: a round runs the tasks that
    -- were due when it began and nothing else, and what it ran and what is queued at its end are
    -- together what was queued before and what the tasks it ran have posted.
    pub process_events-conserves :
        (now : ℕ) (l : EventLoop T) (log : List T)
        → IsOrdered l.task_queue
        → let ran = tasks (keep (is_due now) l.task_queue) in
          let after = (process_events (run_and_log posts) now (l, log)).1 in
          (after.1 ≡ log ++ ran)
          × Perm
              (ran ++ tasks after.0.task_queue)
              (tasks l.task_queue ++ flat_map (posted posts) ran)
    unfolding process_events
    process_events-conserves now l log h =
        let (ts, rest) = take_expired now l.task_queue in
        let l₁ : EventLoop T = record l { task_queue = rest } in
        let ran : ts ≡ tasks (keep (is_due now) l.task_queue) =
          ap (λ p. p.0) (take_expired-keep now l.task_queue h) in
        rw (← ran) (
          fire-log ts l₁ log,
          rw (← take_expired-append now l.task_queue, append_assoc)
              (Perm.append (Perm.refl ts) (fire-perm ts l₁ log)),
        )

    -- From an ordered queue, the result of a round is a time that no queued task precedes: the target time of a queued
    -- task, or 0 if the queue is empty.
    pub process_events-next :
        (now : ℕ) (l : EventLoop T) (log : List T)
        → IsOrdered l.task_queue
        → let (next, (l', log')) = process_events (run_and_log posts) now (l, log) in
          All (λ t. next ≤ t.fire_time) l'.task_queue
          × (((l'.task_queue ≡ []) × (next ≡ 0))
              ⊎ ((t : Task T) × (q : List (Task T)) × (l'.task_queue ≡ t ∷ q)
                  × (next ≡ t.fire_time)))
    unfolding process_events
    process_events-next now l log h =
        let (ts, rest) = take_expired now l.task_queue in
        let l₁ : EventLoop T = record l { task_queue = rest } in
        next_event_time_lem (fire (run_and_log posts) ts (l₁, log)).0.task_queue
          (fire-IsOrdered ts l₁ log (take_expired-IsOrdered now l.task_queue h))

module _ {κ μ} {T : Type 0} {S : Type κ} (on_task_expired : T → EventLoop T × S → EventLoop T × S)
    (P : EventLoop T × S → Type μ)
    (keeps : (t : T) (w : EventLoop T × S) → P w → P (on_task_expired t w)) where
  fire_keeps : (ts : List T) (w : EventLoop T × S) → P w → P (fire on_task_expired ts w)
  unfolding fire
  fire_keeps [] w h = h
  fire_keeps (t ∷ ts) w h = fire_keeps ts (on_task_expired t w) (keeps t w h)

  -- What the callback keeps holds behind `ProcessEvents`, if it holds behind the first loop.
  pub process_events_keeps :
      (now : ℕ) (l : EventLoop T) (s : S)
      → P (record l { task_queue = (take_expired now l.task_queue).1 }, s)
      → P (process_events on_task_expired now (l, s)).1
  unfolding process_events
  process_events_keeps now l s h = fire_keeps (take_expired now l.task_queue).0 _ h
