-- ===== src/MainLoop/Timeouts.antt =====
-- The timeouts of `ppoll` and the prepared reads, over any run of the main loop.
use flutter_embedder_wayland.Base.{
  ℕ, zero, suc, ◌+◌, ◌≡◌, refl, subst, List, [], ◌∷◌, ◌++◌, Option, none, some, arith, All,
  All-append,
}
use native.Mathlib.Nat.{zero-add}
use flutter_embedder_wayland.Time.{forever, set_sleep_to_next_platform_event}
use flutter_embedder_wayland.EventLoop.{EventLoop}
use flutter_embedder_wayland.Keyboard.XkbCommon.{Xkb}
use flutter_embedder_wayland.MainLoop.Tally.{
  polls, prepares, reads, polls-append, prepares-append, reads-append, reads_at, round-RoundCalls,
}
use flutter_embedder_wayland.MainLoop.{
  Display, Call, dispatch_pending, RoundInput, RoundEnd, again, leaves, returns_false, round,
  rounds, prepare, iteration, run, Moment,
}

-- Reads at the end of the inner loop.
abbrev ended_reads {ℓ} : {W : Type ℓ} → Option W → ℕ
ended_reads none = 0
ended_reads (some w) = 1

-- All calls of `ppoll` wait without a timeout, and there are `p` prepared reads, of which `r` were
-- read or cancelled.
pub record Waits (p r : ℕ) (cs : List Call) : Type 0 where
  pub no_timeout : All (λ t. t ≡ forever) (polls cs)
  pub prepared : prepares cs ≡ p
  pub read : reads cs ≡ r

Waits-append :
    (p q r s : ℕ) (xs ys : List Call)
    → Waits p r xs
    → Waits q s ys
    → Waits (p + q) (r + s) (xs ++ ys)
Waits-append p q r s xs ys a b = record {
  no_timeout =
      rw (polls-append xs ys) (All-append _ (polls xs) (polls ys) a.no_timeout b.no_timeout);
  prepared = omega (arith, prepares-append xs ys, a.prepared, b.prepared);
  read = omega (arith, reads-append xs ys, a.read, b.read);
}

module _ {Keymap State T : Type 0} (xkb : Xkb Keymap State)
    (on_task_expired : T → EventLoop T × Display Keymap State → EventLoop T × Display Keymap State)
    (dispatch : EventLoop T × Display Keymap State → EventLoop T × Display Keymap State)
    (threads : Moment
      → RoundInput
      → EventLoop T × Display Keymap State
      → EventLoop T × Display Keymap State) where
  abbrev World : Type 0
  World = EventLoop T × Display Keymap State

  -- The calls of an outcome, if there is one.
  abbrev RoundWaits : Option (RoundEnd World × List Call) → Type 0
  RoundWaits none = Unit {0}
  RoundWaits (some (end, cs)) = Waits 0 (reads_at end) cs

  abbrev EndWaits : Option (Option World × List Call) → Type 0
  EndWaits none = Unit {0}
  EndWaits (some (end, cs)) = Waits 0 (ended_reads end) cs

  round-Waits :
      (i : RoundInput) (w : World) → RoundWaits (round xkb on_task_expired dispatch threads i 0 w)
  round-Waits i w = go (round xkb on_task_expired dispatch threads i 0 w) refl
    where
      go :
          (o : Option (RoundEnd World × List Call))
          → round xkb on_task_expired dispatch threads i 0 w ≡ o
          → RoundWaits o
      go none e = tt
      go (some (end, cs)) e =
          let c = round-RoundCalls xkb on_task_expired dispatch threads i 0 w end cs e in
          record {
            no_timeout = rw c.one_poll (unfold set_sleep_to_next_platform_event in (refl, tt));
            prepared = c.no_prepare;
            read = c.round_reads;
          }

  EndWaits-after :
      (calls : List Call) (o : Option (Option World × List Call))
      → Waits 0 0 calls
      → EndWaits o
      → EndWaits (elim o [ none ↦ none | some (end, more) ↦ some (end, calls ++ more) ])
  EndWaits-after calls none h k = tt
  EndWaits-after calls (some (end, more)) h k =
      rw (← zero-add (ended_reads end)) (Waits-append 0 0 0 (ended_reads end) calls more h k)

  rounds-Waits :
      (is : List RoundInput) (w : World)
      → EndWaits (rounds xkb on_task_expired dispatch threads is 0 w)
  unfolding rounds
  rounds-Waits [] w = tt
  rounds-Waits (i ∷ is) w =
      go (round xkb on_task_expired dispatch threads i 0 w) (round-Waits i w) (rounds-Waits is)
    where
      go :
          (o : Option (RoundEnd World × List Call))
          → RoundWaits o
          → ((w' : World) → EndWaits (rounds xkb on_task_expired dispatch threads is 0 w'))
          → EndWaits (elim o [
            | none ↦ none
            | some (again w', calls) ↦ elim (rounds xkb on_task_expired dispatch threads is 0 w') [
              | none ↦ none
              | some (end, more) ↦ some (end, calls ++ more)
            ]
            | some (leaves next w', calls) ↦ some (some w', calls)
            | some (returns_false, calls) ↦ some (none, calls)
          ])
      go none h rest = tt
      go (some (again w', calls)) h rest =
          EndWaits-after calls (rounds xkb on_task_expired dispatch threads is 0 w') h (rest w')
      go (some (leaves next w', calls)) h rest = h
      go (some (returns_false, calls)) h rest = h

  prepare-Waits :
      (n : ℕ) (w : World) → Waits 1 0 (prepare xkb on_task_expired dispatch threads n w).1
  unfolding prepare
  prepare-Waits zero w = ground arith
  prepare-Waits (suc n) w = ground (arith, prepare-Waits n (dispatch w))

  -- An outer iteration prepares one read; it ends it, unless it ends the program.
  abbrev IterationWaits : Option (Option World × List Call) → Type 0
  IterationWaits none = Unit {0}
  IterationWaits (some (end, cs)) = Waits 1 (ended_reads end) cs

  iteration-Waits :
      (n : ℕ) (is : List RoundInput) (w : World)
      → IterationWaits (iteration xkb on_task_expired dispatch threads n is w)
  unfolding iteration
  iteration-Waits n is w =
      let (w', calls) = prepare xkb on_task_expired dispatch threads n w in
      go w' calls (prepare-Waits n w) (rounds xkb on_task_expired dispatch threads is 0 w')
        (rounds-Waits is w')
    where
      go :
          (w' : World) (calls : List Call)
          → Waits 1 0 calls
          → (o : Option (Option World × List Call)) → EndWaits o
          → IterationWaits (elim o [
            | none ↦ none
            | some (none, more) ↦ some (none, calls ++ more)
            | some (some w'', more) ↦
                some (some (dispatch w''), calls ++ (more ++ dispatch_pending ∷ []))
          ])
      go w' calls h none k = tt
      go w' calls h (some (none, more)) k = Waits-append 1 0 0 0 calls more h k
      go w' calls h (some (some w'', more)) k =
          Waits-append 1 0 0 1 calls (more ++ dispatch_pending ∷ []) h
            (Waits-append 0 0 1 0 more (dispatch_pending ∷ []) k (ground arith))

  -- A read is left prepared where the program ends.
  abbrev pub left_prepared : Option World → ℕ
  left_prepared none = 1
  left_prepared (some w) = 0

  abbrev RunWaits : Option (Option World × List Call) → Type 0
  RunWaits none = Unit {0}
  RunWaits (some (end, cs)) = (r : ℕ) × Waits (left_prepared end + r) r cs

  run-Waits :
      (iterations : List (ℕ × List RoundInput)) (w : World)
      → RunWaits (run xkb on_task_expired dispatch threads iterations w)
  unfolding run
  run-Waits [] w = (0, ground arith)
  run-Waits ((n, is) ∷ rest) w =
      go (iteration xkb on_task_expired dispatch threads n is w) (iteration-Waits n is w)
        (run-Waits rest)
    where
      join :
          (calls : List Call)
          → Waits 1 1 calls
          → (o : Option (Option World × List Call)) → RunWaits o
          → RunWaits (elim o [ none ↦ none | some (end, more) ↦ some (end, calls ++ more) ])
      join calls h none k = tt
      join calls h (some (end, more)) (r, k) =
          let e : 1 + (left_prepared end + r) ≡ left_prepared end + (1 + r) = omega arith in
          (1 + r, rw (← e) (Waits-append 1 (left_prepared end + r) 1 r calls more h k))

      go :
          (o : Option (Option World × List Call))
          → IterationWaits o
          → ((w' : World) → RunWaits (run xkb on_task_expired dispatch threads rest w'))
          → RunWaits (elim o [
            | none ↦ none
            | some (none, calls) ↦ some (none, calls)
            | some (some w', calls) ↦ elim (run xkb on_task_expired dispatch threads rest w') [
              | none ↦ none
              | some (end, more) ↦ some (end, calls ++ more)
            ]
          ])
      go none h k = tt
      go (some (none, calls)) h k = (0, h)
      go (some (some w', calls)) h k =
          join calls h (run xkb on_task_expired dispatch threads rest w') (k w')

  -- In no run of the main loop does `ppoll` have a timeout, whatever `ProcessEvents` has returned.
  pub ppoll_without_timeout :
      (iterations : List (ℕ × List RoundInput)) (w : World) (end : Option World) (cs : List Call)
      → run xkb on_task_expired dispatch threads iterations w ≡ some (end, cs)
      → All (λ t. t ≡ forever) (polls cs)
  ppoll_without_timeout iterations w end cs h =
      let ok = subst RunWaits h (run-Waits iterations w) in ok.1.no_timeout

  -- In any run each read that was prepared is ended by one read or cancelled read, but for the last
  -- one where the program ends.
  pub reads_balanced :
      (iterations : List (ℕ × List RoundInput)) (w : World) (end : Option World) (cs : List Call)
      → run xkb on_task_expired dispatch threads iterations w ≡ some (end, cs)
      → prepares cs ≡ left_prepared end + reads cs
  reads_balanced iterations w end cs h =
      let (r, ok) = subst RunWaits h (run-Waits iterations w) in omega (arith, ok.prepared, ok.read)
