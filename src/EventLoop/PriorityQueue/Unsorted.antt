-- ===== src/EventLoop/PriorityQueue/Unsorted.antt =====
-- A priority queue that keeps its elements as they come and searches for the top: the promises of
-- the interface can be met without a sorted list.
use mathlib.Core.List.{Perm}
use mathlib.Core.List.Perm
use flutter_embedder_wayland.Base.{
  ◌≡◌, refl, sym, subst, true, false, List, [], ◌∷◌, Option, none, some, arith, if◌then◌else◌, All,
  Bool-cases, inl, inr,
}
use flutter_embedder_wayland.EventLoop.Queue.{Task, comparer, comparer_asym, comparer_trans}
use flutter_embedder_wayland.EventLoop.PriorityQueue.{PriorityQueue}

module _ {T : Type 0} where
  -- The element of `t ∷ q` that comes first, and the others.
  unfoldable pub extract : Task T → List (Task T) → Task T × List (Task T)
  extract t [] = (t, [])
  extract t (x ∷ q) =
      let (first, behind) = if comparer t x then (x, t) else (t, x) in
      let (best, others) = extract first q in (best, behind ∷ others)

  -- What holds of the search from the one that comes first of two holds of the search from both.
  extract_both {κ} :
      (P : Task T × List (Task T) → Type κ) (t x : Task T) (q : List (Task T))
      → (comparer t x ≡ true → P ((extract x q).0, t ∷ (extract x q).1))
      → (comparer t x ≡ false → P ((extract t q).0, x ∷ (extract t q).1))
      → P (extract t (x ∷ q))
  unfolding extract
  extract_both P t x q h k = elim (Bool-cases (comparer t x)) [
    | inl after ↦ subst P (sym (rw (extract, after) refl)) (h after)
    | inr before ↦ subst P (sym (rw (extract, before) refl)) (k before)
  ]

  behind :
      (t x : Task T) {q : List (Task T)} {b : Task T} {r : List (Task T)}
      → Perm (t ∷ q) (b ∷ r)
      → Perm (x ∷ t ∷ q) (b ∷ x ∷ r)
  behind t x p = Perm.trans (Perm.cons x p) (Perm.swap _ x _)

  extract-perm : (t : Task T) (q : List (Task T)) → Perm (t ∷ q) ((extract t q).0 ∷ (extract t q).1)
  unfolding extract
  extract-perm t [] = Perm.refl _
  extract-perm t (x ∷ q) =
      extract_both (λ r. Perm (t ∷ x ∷ q) (r.0 ∷ r.1)) t x q
        (λ after. behind x t (extract-perm x q))
        (λ before. Perm.trans (Perm.swap x t q) (behind t x (extract-perm t q)))

  comparer_irrefl : (t : Task T) → comparer t t ≡ false
  unfolding comparer
  comparer_irrefl t = ground arith

  extract-first :
      (t : Task T) (q : List (Task T)) → All (λ y. comparer (extract t q).0 y ≡ false) (t ∷ q)
  unfolding extract
  extract-first t [] = (comparer_irrefl t, tt)
  extract-first t (x ∷ q) =
      let (x_first, after_x) = extract-first x q in
      let (t_first, after_t) = extract-first t q in
      extract_both (λ r. All (λ y. comparer r.0 y ≡ false) (t ∷ x ∷ q)) t x q
        (λ after. (comparer_trans _ x t x_first (comparer_asym t x after), (x_first, after_x)))
        (λ before. (t_first, (comparer_trans _ t x t_first before, after_t)))

  unfoldable pub search_top : List (Task T) → Option (Task T)
  unfolding extract
  search_top [] = none
  search_top (t ∷ q) = some (extract t q).0

  unfoldable pub remove_top : List (Task T) → List (Task T)
  unfolding extract
  remove_top [] = []
  remove_top (t ∷ q) = (extract t q).1

  pub top_none : (q : List (Task T)) → search_top q ≡ none → q ≡ []
  unfolding search_top
  top_none [] e = refl
  top_none (t ∷ q) e = absurd (cc)

  pub top_first :
      (t : Task T) (q : List (Task T)) → search_top q ≡ some t → All (λ x. comparer t x ≡ false) q
  unfolding search_top
  top_first t [] e = tt
  top_first t (x ∷ q) e =
      subst (λ b. All (λ y. comparer b y ≡ false) (x ∷ q)) (ground (arith, e)) (extract-first x q)

  pub items-pop :
      (t : Task T) (q : List (Task T)) → search_top q ≡ some t → Perm q (t ∷ remove_top q)
  unfolding search_top remove_top
  items-pop t [] e = absurd (cc)
  items-pop t (x ∷ q) e =
      subst (λ b. Perm (x ∷ q) (b ∷ (extract x q).1)) (ground (arith, e)) (extract-perm x q)

  abbrev pub unsorted : PriorityQueue T (List (Task T))
  unsorted = record {
    items = λ q. q;
    new_queue = [];
    push_item = λ t q. t ∷ q;
    top = search_top;
    pop = remove_top;
    items-new_queue = refl;
    items-push_item = λ t q. Perm.refl (t ∷ q);
    top_none = top_none;
    top_first = top_first;
    items-pop = items-pop;
  }
