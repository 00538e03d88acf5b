-- ===== src/EventLoop/Threads.antt =====
-- Posts from other threads while the main thread is in `ProcessEvents`. The mutex and the atomic
-- counter of `PostTask` make the steps below indivisible; between them the threads interleave.
use mathlib.Core.List.{Perm, perm_middle, append_assoc, append-nil, map-append}
use mathlib.Core.List.Perm
use flutter_embedder_wayland.Base.{ℕ, ◌≡◌, List, [], ◌∷◌, ◌++◌}
use flutter_embedder_wayland.EventLoop.{draw_order}
use flutter_embedder_wayland.EventLoop.Queue.{Task, push, take_expired, IsOrdered, push-IsOrdered}
use flutter_embedder_wayland.EventLoop.Process.{
  tasks, tasks-push, take_expired-append, take_expired-IsOrdered,
}

-- The shared counter and queue, the tasks whose thread has drawn an order and not yet locked the
-- mutex, the tasks that the main thread has taken and not yet run, those that it has run, and all
-- that was ever posted.
pub record Threads (T : Type 0) : Type 0 where
  pub last_order : ℕ
  pub posting : List (Task T)
  pub task_queue : List (Task T)
  pub expired : List T
  pub ran : List T
  pub posted : List T

module _ {T : Type 0} where
  abbrev pub drawn_task : Threads T → T → ℕ → Task T
  drawn_task s t at = record { order = draw_order s.last_order; fire_time = at; task = t }

  pub data Step (s : Threads T) : Threads T → Type 0 where
    -- `PostTask` in some thread: the order is drawn and the task filled in.
    draw :
        (t : T) (at : ℕ)
        → Step s (record s {
          last_order = draw_order s.last_order;
          posting = drawn_task s t at ∷ s.posting;
          posted = t ∷ s.posted;
        })
    -- `PostTask` goes on: any of the waiting threads gets the mutex and pushes its task.
    lock :
        (xs : List (Task T)) (t : Task T) (ys : List (Task T))
        → s.posting ≡ xs ++ t ∷ ys
        → Step s (record s { posting = xs ++ ys; task_queue = push t s.task_queue })
    -- `ProcessEvents` at time `now` holds the mutex and takes the expired tasks.
    take :
        (now : ℕ)
        → s.expired ≡ []
        → Step s (record s {
          task_queue = (take_expired now s.task_queue).1;
          expired = (take_expired now s.task_queue).0;
        })
    -- `ProcessEvents` without the mutex: the callback on the next expired task.
    run :
        (t : T) (ts : List T)
        → s.expired ≡ t ∷ ts
        → Step s (record s { expired = ts; ran = s.ran ++ t ∷ [] })

  pub data Reach (s : Threads T) : Threads T → Type 0 where
    here : Reach s s
    next : {u v : Threads T} → Reach s u → Step u v → Reach s v

  abbrev pub idle : Threads T
  idle = record {
    last_order = 0;
    posting = [];
    task_queue = [];
    expired = [];
    ran = [];
    posted = [];
  }

  -- Where a posted task can be.
  abbrev pub held : Threads T → List T
  held s = s.ran ++ s.expired ++ (tasks s.task_queue ++ tasks s.posting)

  pub record Inv (s : Threads T) : Type 0 where
    pub ordered : IsOrdered s.task_queue
    pub conserved : Perm (held s) s.posted

  perm_middle_of_three : (a b c : List T) (t : T) → Perm (a ++ (b ++ t ∷ c)) (t ∷ (a ++ (b ++ c)))
  perm_middle_of_three a b c t = rw (← append_assoc, ← append_assoc) (perm_middle (a ++ b) c)

  held-lock :
      (q xs ys : List (Task T)) (t : Task T)
      → Perm (tasks (push t q) ++ tasks (xs ++ ys)) (tasks q ++ tasks (xs ++ t ∷ ys))
  held-lock q xs ys t = simp map-append (
      Perm.trans (Perm.append (tasks-push t q) (Perm.refl (tasks xs ++ tasks ys)))
        (Perm.symm (perm_middle_of_three (tasks q) (tasks xs) (tasks ys) t.task)))

  held-take :
      (now : ℕ) (ran p : List T) (q : List (Task T))
      → ran ++ (take_expired now q).0 ++ (tasks (take_expired now q).1 ++ p)
        ≡ ran ++ [] ++ (tasks q ++ p)
  held-take now ran p q = rw (← take_expired-append now q) (simp (append_assoc, append-nil))

  held-run : (ran ts q : List T) (t : T) → ran ++ t ∷ [] ++ ts ++ q ≡ ran ++ t ∷ ts ++ q
  held-run ran ts q t = simp append_assoc

  Step-Inv : {s u : Threads T} → Step s u → Inv s → Inv u
  Step-Inv {s} (draw t at) v = record {
    ordered = v.ordered;
    conserved =
        Perm.trans
          (perm_middle_of_three (s.ran ++ s.expired) (tasks s.task_queue) (tasks s.posting) t)
          (Perm.cons t v.conserved);
  }
  Step-Inv {s} (lock xs t ys e) v = record {
    ordered = push-IsOrdered t s.task_queue v.ordered;
    conserved =
        Perm.trans
          (Perm.append (Perm.refl (s.ran ++ s.expired)) (rw e (held-lock s.task_queue xs ys t)))
          v.conserved;
  }
  Step-Inv {s} (take now e) v = record {
    ordered = take_expired-IsOrdered now s.task_queue v.ordered;
    conserved = rw (held-take now s.ran (tasks s.posting) s.task_queue) (rw e at v.conserved);
  }
  Step-Inv {s} (run t ts e) v = record {
    ordered = v.ordered;
    conserved =
        rw (held-run s.ran ts (tasks s.task_queue ++ tasks s.posting) t) (rw e at v.conserved);
  }

  pub Reach-Inv : {s u : Threads T} → Inv s → Reach s u → Inv u
  Reach-Inv v here = v
  Reach-Inv v (next r st) = Step-Inv st (Reach-Inv v r)

  pub idle-Inv : Inv idle
  idle-Inv = record { ordered = tt; conserved = Perm.nil }

  -- However the threads interleave, every task ever posted is, as often as it was posted, in exactly
  -- one place: run, taken to be run, queued, or in the hands of the thread that posts it.
  pub Reach-conserves : {s : Threads T} → Reach idle s → Perm (held s) s.posted
  Reach-conserves r = (Reach-Inv idle-Inv r).conserved
