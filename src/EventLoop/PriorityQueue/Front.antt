-- ===== src/EventLoop/PriorityQueue/Front.antt =====
-- The front of the priority queue and the loop that empties it, against the sorted list.
use mathlib.Core.Logic.{∥∥₁_elim}
use mathlib.Core.List.{Perm, Memᴰ, mem-cons_self}
use mathlib.Core.List.Memᴰ
use mathlib.Core.List.Perm
use mathlib.Core.Option.{map}
use flutter_embedder_wayland.Base.{
  ℕ, zero, suc, ◌≡◌, refl, sym, subst, ◌⊎◌, inl, inr, ◌≤◌, false, List, [], ◌∷◌, Option, none, some,
  Option-cases, if◌then◌else◌, ltb, arith, length, All,
}
use flutter_embedder_wayland.EventLoop.{next_event_time}
use flutter_embedder_wayland.EventLoop.Queue.{Task, comparer, take_expired, IsOrdered}
use flutter_embedder_wayland.EventLoop.Orders.{Apart, Distinct}
use flutter_embedder_wayland.EventLoop.PriorityQueue.{PriorityQueue, drain, top_time}

module _ {T : Type 0} where
  All-Memᴰ {κ} : (P : Task T → Type κ) (t : Task T) (q : List (Task T)) → Memᴰ t q → All P q → P t
  All-Memᴰ P t [] m h = absurd (Memᴰ.not-nil m)
  All-Memᴰ P t (x ∷ q) (Memᴰ.head e) h = subst P (sym e) h.0
  All-Memᴰ P t (x ∷ q) (Memᴰ.tail m) h = All-Memᴰ P t q m h.1

  All-first {κ} :
      (P : Task T → Type κ)
      → ((x : Task T) → IsProp (P x))
      → {t : Task T} {q m : List (Task T)} → Perm q (t ∷ m)
      → All P q
      → P t
  All-first P prop {t} {q} p h =
      ∥∥₁_elim (Perm.subset (Perm.symm p) t mem-cons_self) (prop t) (λ m. All-Memᴰ P t q m h)

  -- Of two tasks of which none comes after the other, the orders are the same.
  same_order : (a b : Task T) → comparer a b ≡ false → comparer b a ≡ false → a.order ≡ b.order
  unfolding comparer
  same_order a b h k = ground arith

  task_set : IsSet T → IsSet (Task T)
  task_set s = hlevel s

module _ {T Q : Type 0} (pq : PriorityQueue T Q) (T_set : IsSet T) where
  open pq use {items, new_queue, push_item, top, pop}

  -- A task that nothing comes before is the head of the ordered list.
  head_unique :
      (t x : Task T) (m l : List (Task T))
      → Perm (t ∷ m) (x ∷ l)
      → comparer t x ≡ false
      → All (λ y. comparer x y ≡ false) l
      → Apart x l
      → t ≡ x
  head_unique t x m l p h o d = ∥∥₁_elim (Perm.cons-cons_cases p) (task_set T_set t x) go
    where
      go : ((t ≡ x) × Perm m l) ⊎ ((cs : List (Task T)) × Perm m (x ∷ cs) × Perm l (t ∷ cs)) → t ≡ x
      go (inl s) = s.0
      go (inr (cs, k, r)) =
          absurd (All-first _ (λ y. hlevel) r d (same_order t x h (All-first _ (λ y. hlevel) r o)))

  -- The queue `q` starts as the list does.
  abbrev StartsAs : Q → List (Task T) → Type 0
  StartsAs q [] = top q ≡ none
  StartsAs q (x ∷ l) = (top q ≡ some x) × Perm (items (pop q)) l

  front : (q : Q) (l : List (Task T)) → Perm (items q) l → IsOrdered l → Distinct l → StartsAs q l
  front q [] p o d = elim (Option-cases (top q)) [
    | inl e ↦ e
    | inr (t, e) ↦
        let gone = Perm.eq-nil (Perm.trans (Perm.symm (pq.items-pop t q e)) p) in absurd (cc)
  ]
  front q (x ∷ l) p o d = elim (Option-cases (top q)) [
    | inl e ↦
        let gone = Perm.nil-eq (subst (λ i. Perm i (x ∷ l)) (pq.top_none q e) p) in absurd (cc)
    | inr (t, e) ↦
        let both = Perm.trans (Perm.symm (pq.items-pop t q e)) p in
        let same =
          head_unique t x (items (pop q)) l both (All-first _ (λ y. hlevel) p (pq.top_first t q e))
            o.0 d.0 in
        (
          subst (λ y. top q ≡ some y) same e,
          Perm.cons_inv (subst (λ y. Perm (y ∷ items (pop q)) (x ∷ l)) same both),
        )
  ]

  -- The two ends of the loop: the fuel was too little, or it has taken what the list gives.
  abbrev DrainsAs : List T × List (Task T) → Option (List T × Q) → Type 0
  DrainsAs r none = ⊥
  DrainsAs r (some (ts, q')) = (ts ≡ r.0) × Perm (items q') r.1

  abbrev Turns : ℕ → List (Task T) → List T × List (Task T) → Option (List T × Q) → Type 0
  Turns n l r o = (o ≡ none) × (n ≤ length l) ⊎ DrainsAs r o

  one_turn :
      (n now : ℕ) (q : Q) (x : Task T) (l : List (Task T)) (o : Option (List T × Q))
      → Perm (items q) (x ∷ l)
      → Turns n l (take_expired now l) o
      → Turns
          (suc n)
          (x ∷ l)
          (take_expired now (x ∷ l))
          (if ltb now x.fire_time then some ([], q) else map (λ r. (x.task ∷ r.0, r.1)) o)
  unfolding take_expired
  one_turn n now q x l none p (inl (e, h)) = ground arith
  one_turn n now q x l none p (inr gone) = absurd gone
  one_turn n now q x l (some r) p (inl (e, h)) = absurd (cc)
  one_turn n now q x l (some (ts, q')) p (inr (e, k)) = ground arith

  drain-Turns :
      (n now : ℕ) (q : Q) (l : List (Task T))
      → Perm (items q) l
      → IsOrdered l
      → Distinct l
      → Turns n l (take_expired now l) (drain pq n now q)
  unfolding drain take_expired
  drain-Turns zero now q l p o d = inl (refl, omega arith)
  drain-Turns (suc n) now q [] p o d = rw (drain, front q [] p o d) (inr (refl, p))
  drain-Turns (suc n) now q (x ∷ l) p o d =
      let (e, p') = front q (x ∷ l) p o d in
      rw (drain, e)
        (one_turn n now q x l (drain pq n now (pop q)) p (drain-Turns n now (pop q) l p' o.1 d.1))

  -- The list has the elements of the queue, sorted.
  abbrev pub Sorts : List (Task T) → Q → Type 0
  Sorts l q = Perm (items q) l × IsOrdered l × Distinct l

  -- If the loop ends, then as the list says.
  pub drain_ends :
      (n now : ℕ) (q : Q) (l : List (Task T)) (ts : List T) (q' : Q)
      → Sorts l q
      → drain pq n now q ≡ some (ts, q')
      → (ts ≡ (take_expired now l).0) × Perm (items q') (take_expired now l).1
  drain_ends n now q l ts q' (p, o, d) e = elim (drain-Turns n now q l p o d) [
    | inl (out, h) ↦ absurd (cc)
    | inr ends ↦ subst (DrainsAs (take_expired now l)) e ends
  ]

  -- It does end: a turn for each task and one more are enough.
  pub drain_enough :
      (now : ℕ) (q : Q) (l : List (Task T))
      → Sorts l q
      → (ts : List T) × (q' : Q) × (drain pq (suc (length l)) now q ≡ some (ts, q'))
  drain_enough now q l (p, o, d) = elim (Option-cases (drain pq (suc (length l)) now q)) [
    | inl e ↦ elim (drain-Turns (suc (length l)) now q l p o d) [
      | inl (out, h) ↦ absurd (omega arith)
      | inr ends ↦ absurd (subst (DrainsAs (take_expired now l)) e ends)
    ]
    | inr ((ts, q'), e) ↦ (ts, q', e)
  ]

  pub top_time-next_event_time :
      (q : Q) (l : List (Task T)) → Sorts l q → top_time pq q ≡ next_event_time l
  unfolding next_event_time top_time
  top_time-next_event_time q [] (p, o, d) = rw (top_time, front q [] p o d) refl
  top_time-next_event_time q (x ∷ l) (p, o, d) = rw (top_time, (front q (x ∷ l) p o d).0) refl
