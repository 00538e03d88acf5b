-- ===== src/Vsync/Progress.antt =====
-- A baton that was handed over does come back: the steps that carry it cannot go on for ever, and
-- while it waits one of them can be taken.
use flutter_embedder_wayland.Base.{
  ℕ, zero, suc, ◌+◌, ◌*◌, ◌≡◌, ◌≢◌, ◌≤◌, ◌⊎◌, refl, ◌∙◌, Bool, true, false, arith, Bool-cases, inl,
  inr,
}
use mathlib.Core.List.{append-nil}
use flutter_embedder_wayland.Vsync.Handoff.{
  Threads, Step, Reach, start, store, send, receive, handle, clock, feedback, frame, bit, Inv,
  Reach-Inv, Step-Inv,
}

-- The steps that carry a baton on: the write of the notice, its read, and `vSyncHandler`.
abbrev pub carries : {s u : Threads} → Step s u → Bool
carries (send e) = true
carries (receive n e f) = true
carries (handle accepts now e) = true
carries _ = false

-- `n` such steps, one after the other.
pub data Carried (s : Threads) : ℕ → Threads → Type 0 where
  at_first : Carried s 0 s
  then_on :
      {n : ℕ} {u v : Threads}
      → Carried s n u
      → (st : Step u v) → carries st ≡ true
      → Carried s (suc n) v

-- How many of them are ahead.
weight : Threads → ℕ
weight s = bit s.storing * 3 + s.unread * 2 + bit s.notified

weight-carries : {s u : Threads} (st : Step s u) → carries st ≡ true → suc (weight u) ≤ weight s
unfolding weight
weight-carries (store b v e nz g) h = absurd (cc)
weight-carries (send e) h = ground arith
weight-carries (receive n e f) h = ground arith
weight-carries (handle accepts now e) h = ground arith
weight-carries (clock clk_id) h = absurd (cc)
weight-carries (feedback hi lo ns) h = absurd (cc)
weight-carries (frame now) h = absurd (cc)

handed_over-carries :
    {s u : Threads} (st : Step s u) → carries st ≡ true → u.handed_over ≡ s.handed_over
handed_over-carries (store b v e nz g) h = absurd (cc)
handed_over-carries (send e) h = refl
handed_over-carries (receive n e f) h = refl
handed_over-carries (handle accepts now e) h = refl
handed_over-carries (clock clk_id) h = absurd (cc)
handed_over-carries (feedback hi lo ns) h = absurd (cc)
handed_over-carries (frame now) h = absurd (cc)

weight_bound : {s : Threads} → Inv s → weight s ≤ 3
unfolding weight
weight_bound i = ground (arith, i.one_notice)

ℕ-cases : (n : ℕ) → (n ≡ 0) ⊎ ((k : ℕ) × (n ≡ suc k))
ℕ-cases zero = inl refl
ℕ-cases (suc k) = inr (k, refl)

-- While a baton waits, one of the steps can be taken.
carried_on :
    {s : Threads}
    → Inv s
    → s.vsync.baton ≢ 0
    → (u : Threads) × (st : Step s u) × (carries st ≡ true)
carried_on {s} i waits = elim (Bool-cases s.storing) [
  | inl storing ↦ (_, send storing, refl)
  | inr stored ↦ elim (Bool-cases s.notified) [
    | inl notified ↦ (_, handle (λ call. true) 0 notified, refl)
    | inr free ↦ elim (ℕ-cases s.unread) [
      | inl nothing ↦ absurd (ground (arith, i.one_notice))
      | inr (n, unread) ↦ (_, receive n unread free, refl)
    ]
  ]
]

no_baton_waits : {s : Threads} → Inv s → s.vsync.baton ≡ 0 → s.returned ≡ s.handed_over
no_baton_waits {s} i e = ground (arith, i.accounted, append-nil s.returned)

record Chain (s : Threads) (n : ℕ) (u : Threads) : Type 0 where
  inv : Inv u
  weighs : n + weight u ≤ weight s
  handed_over : u.handed_over ≡ s.handed_over

Carried-Chain : {s u : Threads} {n : ℕ} → Inv s → Carried s n u → Chain s n u
Carried-Chain {s} i at_first = record { inv = i; weighs = omega arith; handed_over = refl }
Carried-Chain i (then_on c st h) =
    let before = Carried-Chain i c in
    record {
      inv = Step-Inv st before.inv;
      weighs = omega (arith, weight-carries st h, before.weighs);
      handed_over = handed_over-carries st h ∙ before.handed_over;
    }

-- From whatever the threads have come to, at most three steps carry the baton on. As long as a baton waits there is such a step; when none waits any more, the batons
-- that were handed over are all back, in their order.
pub baton_comes_back :
    {s u : Threads} {n : ℕ}
    → Reach start s
    → Carried s n u
    → (n ≤ 3)
      × (u.vsync.baton ≢ 0 → (v : Threads) × Carried s (suc n) v)
      × (u.vsync.baton ≡ 0 → u.returned ≡ s.handed_over)
baton_comes_back {s} {u} {n} r c =
    let chain = Carried-Chain (Reach-Inv r) c in
    (
      omega (arith, chain.weighs, weight_bound (Reach-Inv r)),
      λ waits. let (v, st, h) = carried_on chain.inv waits in (v, then_on c st h),
      λ e. no_baton_waits chain.inv e ∙ chain.handed_over,
    )
