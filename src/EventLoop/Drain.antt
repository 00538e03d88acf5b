-- ===== src/EventLoop/Drain.antt =====
-- The first loop of `ProcessEvents` against an independent description: in an ordered queue it
-- takes exactly the tasks whose time has come.
use flutter_embedder_wayland.Base.{
  ℕ, ◌≤◌, ◌<◌, ◌≡◌, refl, Bool, false, not, List, [], ◌∷◌, map, arith, leb, keep, All,
}
use flutter_embedder_wayland.EventLoop.Queue.{Task, comparer, take_expired, IsOrdered}

module _ {T : Type 0} where
  -- The time of a task has come.
  abbrev pub is_due : ℕ → Task T → Bool
  is_due now t = leb t.fire_time now

  pub comparer-fire_time : (a b : Task T) → comparer a b ≡ false → a.fire_time ≤ b.fire_time
  unfolding comparer
  comparer-fire_time a b h = ground arith

  none_due :
      (now : ℕ) (t : Task T) (q : List (Task T))
      → now < t.fire_time
      → All (λ x. comparer t x ≡ false) q
      → (keep (is_due now) q ≡ []) × (keep (λ x. not (is_due now x)) q ≡ q)
  none_due now t [] h k = (refl, refl)
  none_due now t (x ∷ q) h k = ground (arith, comparer-fire_time t x, none_due now t q h k.1)

  -- Of an ordered queue the loop takes the tasks that are due, and leaves the others in place.
  pub take_expired-keep :
      (now : ℕ) (q : List (Task T))
      → IsOrdered q
      → take_expired now q
        ≡ (map (λ t. t.task) (keep (is_due now) q), keep (λ t. not (is_due now t)) q)
  unfolding take_expired
  take_expired-keep now [] h = refl
  take_expired-keep now (t ∷ q) h = ground (arith, none_due now t q, take_expired-keep now q h.1)
