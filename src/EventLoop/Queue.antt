-- ===== src/EventLoop/Queue.antt =====
-- The task queue of `PlatformEventLoop` (src/event_loop.h, src/event_loop.cc).
use mathlib.Core.List.{Perm}
use mathlib.Core.List.Perm
use flutter_embedder_wayland.Base.{
  ℕ, ◌≡◌, Bool, true, false, List, [], ◌∷◌, arith, ltb, ◌==◌, if◌then◌else◌, All,
}

-- `PlatformEventLoop::Task`; `T` is the engine's `FlutterTask`.
pub record Task (T : Type 0) : Type 0 where
  pub order : ℕ  -- uint64_t
  pub fire_time : ℕ  -- uint64_t
  pub task : T

module _ {T : Type 0} where
  -- `Task::Comparer`: `a` comes after `b`.
  unfoldable pub comparer : Task T → Task T → Bool
  comparer a b =
      if a.fire_time == b.fire_time then ltb b.order a.order else ltb b.fire_time a.fire_time

  -- `std::priority_queue::push`. The queue is the list of its elements from `top()` on: a new
  -- element goes in front of the first one that comes after it.
  unfoldable pub push : Task T → List (Task T) → List (Task T)
  push t [] = t ∷ []
  push t (x ∷ q) = if comparer x t then t ∷ x ∷ q else x ∷ push t q

  -- The first loop of `ProcessEvents`: the expired tasks, and the queue that is left.
  unfoldable pub take_expired : ℕ → List (Task T) → List T × List (Task T)
  take_expired now [] = ([], [])
  take_expired now (top ∷ q) =
      let (expired, rest) = take_expired now q in
      if ltb now top.fire_time then ([], top ∷ q) else (top.task ∷ expired, rest)

  -- No element stands behind one that comes after it.
  abbrev pub IsOrdered : List (Task T) → Type 0
  IsOrdered [] = Unit {0}
  IsOrdered (t ∷ q) = All (λ x. comparer t x ≡ false) q × IsOrdered q

  pub comparer_asym : (a b : Task T) → comparer a b ≡ true → comparer b a ≡ false
  unfolding comparer
  comparer_asym a b h = ground arith

  pub comparer_trans :
      (a b c : Task T) → comparer a b ≡ false → comparer b c ≡ false → comparer a c ≡ false
  unfolding comparer
  comparer_trans a b c h k = ground arith

  All-comparer :
      (a b : Task T) (q : List (Task T))
      → comparer a b ≡ false
      → All (λ x. comparer b x ≡ false) q
      → All (λ x. comparer a x ≡ false) q
  All-comparer a b [] h k = tt
  All-comparer a b (x ∷ q) h k = (comparer_trans a b x h k.0, All-comparer a b q h k.1)

  pub All-push {κ} :
      (P : Task T → Type κ) (t : Task T) (q : List (Task T)) → P t → All P q → All P (push t q)
  unfolding push
  All-push P t [] h k = (h, k)
  All-push P t (x ∷ q) h k = ground (arith, All-push P t q h)

  pub push-perm : (t : Task T) (q : List (Task T)) → Perm (push t q) (t ∷ q)
  unfolding push
  push-perm t [] = Perm.refl _
  push-perm t (x ∷ q) =
      ground
        (arith, Perm.refl (t ∷ x ∷ q), Perm.trans (Perm.cons x (push-perm t q)) (Perm.swap t x q))

  -- A push keeps the queue ordered.
  pub push-IsOrdered : (t : Task T) (q : List (Task T)) → IsOrdered q → IsOrdered (push t q)
  unfolding push
  push-IsOrdered t [] h = (tt, tt)
  push-IsOrdered t (x ∷ q) h = ground (
    arith,
    comparer_asym x t,
    All-comparer t x q,
    All-push (λ y. comparer x y ≡ false) t q,
    push-IsOrdered t q,
  )
