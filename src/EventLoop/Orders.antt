-- ===== src/EventLoop/Orders.antt =====
-- The orders that `PostTask` draws (src/event_loop.cc): no two tasks that wait or are queued have
-- one order while the counter has not wrapped around.
use flutter_embedder_wayland.Base.{
  ℕ, suc, ◌^◌, ◌≤◌, ◌<◌, ◌≡◌, ◌≢◌, refl, sym, subst, List, [], ◌∷◌, ◌++◌, arith, length, All,
}
use flutter_embedder_wayland.EventLoop.{draw_order}
use flutter_embedder_wayland.EventLoop.Queue.{Task, push, take_expired, All-push}
use flutter_embedder_wayland.EventLoop.Threads.{
  Threads, Step, Reach, draw, lock, take, run, here, next, idle,
}

module _ {T : Type 0} where
  abbrev pub Apart : Task T → List (Task T) → Type 0
  Apart t = All (λ x. x.order ≢ t.order)

  -- No two tasks have one order.
  abbrev pub Distinct : List (Task T) → Type 0
  Distinct [] = Unit {0}
  Distinct (t ∷ ts) = Apart t ts × Distinct ts

  abbrev OrdersUpTo : ℕ → List (Task T) → Type 0
  OrdersUpTo n = All (λ t. t.order ≤ n)

  All-drop_middle {κ} :
      (P : Task T → Type κ) (xs : List (Task T)) (t : Task T) (ys : List (Task T))
      → All P (xs ++ t ∷ ys)
      → P t × All P (xs ++ ys)
  All-drop_middle P [] t ys h = h
  All-drop_middle P (x ∷ xs) t ys h =
      let (p, rest) = All-drop_middle P xs t ys h.1 in (p, (h.0, rest))

  pub Distinct-drop_middle :
      (xs : List (Task T)) (t : Task T) (ys : List (Task T))
      → Distinct (xs ++ t ∷ ys)
      → Distinct (xs ++ ys) × Apart t (xs ++ ys)
  Distinct-drop_middle [] t ys h = (h.1, h.0)
  Distinct-drop_middle (x ∷ xs) t ys h =
      let (apart, others) = All-drop_middle (λ y. y.order ≢ x.order) xs t ys h.0 in
      let (distinct, rest) = Distinct-drop_middle xs t ys h.1 in
      ((others, distinct), (λ e. apart (sym e), rest))

  Distinct-push : (t : Task T) (q : List (Task T)) → Apart t q → Distinct q → Distinct (push t q)
  unfolding push
  Distinct-push t [] h k = (tt, tt)
  Distinct-push t (x ∷ q) h k = ground (
    arith,
    All-push (λ y. y.order ≢ x.order) t q (λ e. h.0 (sym e)) k.0,
    Distinct-push t q h.1 k.1,
  )

  All-take_expired {κ} :
      (P : Task T → Type κ) (now : ℕ) (q : List (Task T)) → All P q → All P (take_expired now q).1
  unfolding take_expired
  All-take_expired P now [] h = tt
  All-take_expired P now (t ∷ q) h = ground (arith, All-take_expired P now q h.1)

  Distinct-take_expired :
      (now : ℕ) (q : List (Task T)) → Distinct q → Distinct (take_expired now q).1
  unfolding take_expired
  Distinct-take_expired now [] h = tt
  Distinct-take_expired now (t ∷ q) h = ground (arith, Distinct-take_expired now q h.1)

  -- What the counter makes true, while it has not wrapped around.
  pub record Drawn (s : Threads T) : Type 0 where
    pub counted : s.last_order ≡ length s.posted
    pub waiting_up_to : OrdersUpTo s.last_order s.posting
    pub queued_up_to : OrdersUpTo s.last_order s.task_queue
    pub waiting_distinct : Distinct s.posting
    pub queued_distinct : Distinct s.task_queue
    pub apart : All (λ t. Apart t s.task_queue) s.posting

  Apart-fresh :
      (n : ℕ) (t : Task T) (ts : List (Task T))
      → OrdersUpTo n ts
      → n < t.order
      → OrdersUpTo t.order ts × Apart t ts
  Apart-fresh n t [] h lt = (tt, tt)
  Apart-fresh n t (x ∷ ts) h lt =
      let (up_to, apart) = Apart-fresh n t ts h.1 lt in ((omega arith, up_to), (omega arith, apart))

  -- A task that is pushed is apart from those that go on waiting.
  Apart-push :
      (t : Task T) (q ts : List (Task T))
      → Apart t ts
      → All (λ x. Apart x q) ts
      → All (λ x. Apart x (push t q)) ts
  Apart-push t q [] h k = tt
  Apart-push t q (x ∷ ts) h k =
      (All-push (λ y. y.order ≢ x.order) t q (λ e. h.0 (sym e)) k.0, Apart-push t q ts h.1 k.1)

  Apart-take_expired :
      (now : ℕ) (q ts : List (Task T))
      → All (λ x. Apart x q) ts
      → All (λ x. Apart x (take_expired now q).1) ts
  Apart-take_expired now q [] h = tt
  Apart-take_expired now q (x ∷ ts) h =
      (All-take_expired (λ y. y.order ≢ x.order) now q h.0, Apart-take_expired now q ts h.1)

  pub Step-Drawn :
      {s u : Threads T}
      → Step s u
      → length u.posted < 2 ^ 64
      → (length s.posted < 2 ^ 64 → Drawn s)
      → Drawn u
  unfolding draw_order
  Step-Drawn {s} (draw t at) b i =
      let before = i (omega arith) in
      let drawn : Task T = record { order = draw_order s.last_order; fire_time = at; task = t } in
      let fresh : draw_order s.last_order ≡ suc (length s.posted) = omega (arith, before.counted) in
      let lt : s.last_order < draw_order s.last_order = omega (arith, before.counted) in
      let (w, wa) = Apart-fresh s.last_order drawn s.posting before.waiting_up_to lt in
      let (q, qa) = Apart-fresh s.last_order drawn s.task_queue before.queued_up_to lt in
      record {
        counted = fresh;
        waiting_up_to = (omega arith, w);
        queued_up_to = q;
        waiting_distinct = (wa, before.waiting_distinct);
        queued_distinct = before.queued_distinct;
        apart = (qa, before.apart);
      }
  Step-Drawn {s} (lock xs t ys e) b i =
      let before = i b in
      let (p, w) =
        All-drop_middle _ xs t ys (subst (OrdersUpTo s.last_order) e before.waiting_up_to) in
      let (d, t_apart) = Distinct-drop_middle xs t ys (subst Distinct e before.waiting_distinct) in
      let (a, others) =
        All-drop_middle _ xs t ys (subst (All (λ x. Apart x s.task_queue)) e before.apart) in
      record {
        counted = before.counted;
        waiting_up_to = w;
        queued_up_to = All-push (λ x. x.order ≤ s.last_order) t s.task_queue p before.queued_up_to;
        waiting_distinct = d;
        queued_distinct = Distinct-push t s.task_queue a before.queued_distinct;
        apart = Apart-push t s.task_queue (xs ++ ys) t_apart others;
      }
  Step-Drawn {s} (take now e) b i =
      let d = i b in
      record {
        counted = d.counted;
        waiting_up_to = d.waiting_up_to;
        queued_up_to = All-take_expired _ now s.task_queue d.queued_up_to;
        waiting_distinct = d.waiting_distinct;
        queued_distinct = Distinct-take_expired now s.task_queue d.queued_distinct;
        apart = Apart-take_expired now s.task_queue s.posting d.apart;
      }
  Step-Drawn (run t ts e) b i =
      let d = i b in
      record {
        counted = d.counted;
        waiting_up_to = d.waiting_up_to;
        queued_up_to = d.queued_up_to;
        waiting_distinct = d.waiting_distinct;
        queued_distinct = d.queued_distinct;
        apart = d.apart;
      }

  pub Reach-Drawn : {s : Threads T} → Reach idle s → length s.posted < 2 ^ 64 → Drawn s
  Reach-Drawn here b = record {
    counted = refl;
    waiting_up_to = tt;
    queued_up_to = tt;
    waiting_distinct = tt;
    queued_distinct = tt;
    apart = tt;
  }
  Reach-Drawn (next r st) b = Step-Drawn st b (Reach-Drawn r)
