-- ===== src/EventLoop/Progress.antt =====
-- Posted tasks can always be run: whatever the threads have come to, no task is stuck.
use mathlib.Core.List.{Perm, append_assoc, append-nil}
use flutter_embedder_wayland.Base.{ℕ, ◌≤◌, ◌≡◌, refl, subst, List, [], ◌∷◌, ◌++◌, arith, All}
use flutter_embedder_wayland.EventLoop.Queue.{Task, push, take_expired, All-push}
use flutter_embedder_wayland.EventLoop.Process.{tasks}
use flutter_embedder_wayland.EventLoop.Threads.{
  Threads, Reach, lock, take, run, here, next, idle, held, Reach-conserves,
}

module _ {T : Type 0} where
  abbrev pub TimesUpTo : ℕ → List (Task T) → Type 0
  TimesUpTo now = All (λ t. t.fire_time ≤ now)

  pub Reach-trans : {s u v : Threads T} → Reach s u → Reach u v → Reach s v
  Reach-trans r here = r
  Reach-trans r (next r' st) = next (Reach-trans r r') st

  abbrev pub push_all : List (Task T) → List (Task T) → List (Task T)
  push_all [] q = q
  push_all (t ∷ ts) q = push_all ts (push t q)

  push_all-TimesUpTo :
      (now : ℕ) (ts q : List (Task T))
      → TimesUpTo now ts
      → TimesUpTo now q
      → TimesUpTo now (push_all ts q)
  push_all-TimesUpTo now [] q h k = k
  push_all-TimesUpTo now (t ∷ ts) q h k =
      push_all-TimesUpTo now ts (push t q) h.1 (All-push (λ x. x.fire_time ≤ now) t q h.0 k)

  -- The threads that wait get the mutex one after the other.
  lock_all :
      (p : List (Task T)) (s : Threads T)
      → s.posting ≡ p
      → Reach s (record s { posting = []; task_queue = push_all p s.task_queue })
  lock_all [] s e = subst (λ p. Reach s (record s { posting = p })) e here
  lock_all (t ∷ p) s e =
      Reach-trans (next here (lock [] t p e))
        (lock_all p (record s { posting = p; task_queue = push t s.task_queue }) refl)

  -- The main thread runs all that it has taken.
  run_all :
      (ts : List T) (s : Threads T)
      → s.expired ≡ ts
      → Reach s (record s { expired = []; ran = s.ran ++ ts })
  run_all [] s e = subst (λ (p : Threads T). Reach s p) (ground (arith, append-nil s.ran)) here
  run_all (t ∷ ts) s e =
      subst (λ log. Reach s (record s { expired = []; ran = log })) (append_assoc s.ran (t ∷ []) ts)
        (Reach-trans (next here (run t ts e))
          (run_all ts (record s { expired = ts; ran = s.ran ++ t ∷ [] }) refl))

  -- From the time of the last one on, all tasks are taken.
  take_expired-all :
      (now : ℕ) (q : List (Task T)) → TimesUpTo now q → take_expired now q ≡ (tasks q, [])
  unfolding take_expired
  take_expired-all now [] h = refl
  take_expired-all now (t ∷ q) h = ground (arith, take_expired-all now q h.1)

  -- At a time `now` that no target time of a task exceeds: the threads that wait can get the mutex
  -- and the main thread can take and run tasks, until without any further post nothing waits, is
  -- queued or is left to run, and what has run is what was ever posted, as often.
  pub Reach-drains :
      {s : Threads T} (now : ℕ)
      → Reach idle s
      → TimesUpTo now s.task_queue
      → TimesUpTo now s.posting
      → (u : Threads T) × Reach s u
        × (u.posting ≡ [])
        × (u.task_queue ≡ [])
        × (u.expired ≡ [])
        × (u.posted ≡ s.posted)
        × Perm u.ran s.posted
  Reach-drains {s} now r queued waiting =
      let q = push_all s.posting s.task_queue in
      let log = (s.ran ++ s.expired) ++ tasks q in
      let s₁ : Threads T = record s { expired = []; ran = s.ran ++ s.expired } in
      let s₂ : Threads T = record s₁ { posting = []; task_queue = q } in
      let s₃ : Threads T = record s₂ { task_queue = []; expired = tasks q } in
      let u : Threads T = record s₃ { expired = []; ran = log } in
      let due = push_all-TimesUpTo now s.posting s.task_queue waiting queued in
      let taken : Reach s₂ s₃ =
        subst (λ p. Reach s₂ (record s₂ { task_queue = p.1; expired = p.0 }))
          (take_expired-all now q due) (next here (take now refl)) in
      let way : Reach s u = Reach-trans (run_all s.expired s refl) (
        Reach-trans (lock_all s.posting s₁ refl) (Reach-trans taken (run_all (tasks q) s₃ refl))) in
      let kept : Perm (held u) s.posted = Reach-conserves (Reach-trans r way) in
      (u, way, refl, refl, refl, refl, simp append-nil at kept)
