-- ===== src/EventLoop/Confluence.antt =====
-- The order in which the posting threads get the mutex makes no difference to the queue.
use flutter_embedder_wayland.Base.{
  ◌^◌, ◌<◌, ◌≡◌, ◌≢◌, refl, sym, ◌∙◌, ap, subst, Bool, true, false, List, [], ◌∷◌, ◌++◌, arith,
  length, All,
}
use flutter_embedder_wayland.EventLoop.Queue.{Task, comparer, push}
use flutter_embedder_wayland.EventLoop.Threads.{Threads, Step, Reach, draw, lock, take, run, idle}
use flutter_embedder_wayland.EventLoop.Orders.{Distinct, Distinct-drop_middle, Reach-Drawn}
use flutter_embedder_wayland.EventLoop.Progress.{push_all}

module _ {T : Type 0} where
  push_comm :
      (a b : Task T) (q : List (Task T)) → a.order ≢ b.order → push a (push b q) ≡ push b (push a q)
  unfolding push comparer
  push_comm a b [] h = ground arith
  push_comm a b (x ∷ q) h = ground (arith, push_comm a b q h)

  All-append_left {κ} : (P : Task T → Type κ) (xs ys : List (Task T)) → All P (xs ++ ys) → All P xs
  All-append_left P [] ys h = tt
  All-append_left P (x ∷ xs) ys h = (h.0, All-append_left P xs ys h.1)

  -- A task may be pushed before those in front of it.
  push_all-middle :
      (xs : List (Task T)) (t : Task T) (ys q : List (Task T))
      → All (λ x. x.order ≢ t.order) xs
      → push_all (xs ++ t ∷ ys) q ≡ push_all (xs ++ ys) (push t q)
  push_all-middle [] t ys q h = refl
  push_all-middle (x ∷ xs) t ys q h =
      push_all-middle xs t ys (push x q) h.1
      ∙ ap (push_all (xs ++ ys)) (push_comm t x q (λ e. h.0 (sym e)))

  abbrev pub is_lock : {s u : Threads T} → Step s u → Bool
  is_lock (lock xs t ys e) = true
  is_lock _ = false

  -- Threads that get the mutex one after the other, and nothing else between.
  pub data Locks (u : Threads T) : Threads T → Type 0 where
    all_done : Locks u u
    first : {s v : Threads T} (st : Step s v) → is_lock st ≡ true → Locks u v → Locks u s

  abbrev locked_all : Threads T → Threads T
  locked_all s = record s { posting = []; task_queue = push_all s.posting s.task_queue }

  locked_none : (s : Threads T) → s.posting ≡ [] → s ≡ locked_all s
  locked_none s e = ground arith

  Locks-locked_all :
      {u s : Threads T} → Locks u s → Distinct s.posting → u.posting ≡ [] → u ≡ locked_all s
  Locks-locked_all {u} all_done d e = locked_none u e
  Locks-locked_all {u} {s} (first (lock xs t ys f) h rest) d e =
      let (distinct, apart) = Distinct-drop_middle xs t ys (subst Distinct f d) in
      let later = Locks-locked_all rest distinct e in
      later
      ∙ ap (λ q. record s { posting = []; task_queue = q })
          (sym (push_all-middle xs t ys s.task_queue (All-append_left _ xs ys apart))
            ∙ ap (λ p. push_all p s.task_queue) (sym f))
  Locks-locked_all (first (draw t at) h rest) d e = absurd (cc)
  Locks-locked_all (first (take now f) h rest) d e = absurd (cc)
  Locks-locked_all (first (run t ts f) h rest) d e = absurd (cc)

  -- Whatever the threads have come to with fewer than 2 ^ 64 posts: if those that have drawn an order
  -- and wait get the mutex one after the other, all of them, then in whichever sequence they get it
  -- the outcome is the same, the order in the queue included.
  pub Locks-confluent :
      {s u v : Threads T}
      → Reach idle s
      → length s.posted < 2 ^ 64
      → Locks u s
      → u.posting ≡ []
      → Locks v s
      → v.posting ≡ []
      → u ≡ v
  Locks-confluent r b lu eu lv ev =
      let d = (Reach-Drawn r b).waiting_distinct in
      Locks-locked_all lu d eu ∙ sym (Locks-locked_all lv d ev)
