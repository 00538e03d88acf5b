-- ===== src/MainLoop/Tally.antt =====
-- What the parts of a round call: how often they poll, prepare to read and read.
use flutter_embedder_wayland.Base.{
  ℕ, suc, ◌+◌, ◌≡◌, refl, Bool, true, false, List, [], ◌∷◌, ◌++◌, Option, none, some, arith,
  if◌then◌else◌, Option-cases, inl, inr,
}
use flutter_embedder_wayland.Base.Syscall.{done, fails, is_eintr, retry}
use flutter_embedder_wayland.Time.{Timespec, set_sleep_to_next_platform_event}
use flutter_embedder_wayland.EventLoop.{EventLoop}
use flutter_embedder_wayland.Keyboard.XkbCommon.{Xkb}
use flutter_embedder_wayland.MainLoop.{
  Display, Call, prepare_read, read_events, cancel_read, poll, RoundInput, RoundEnd, again, leaves,
  returns_false, after, timer_part, return_baton, vsync_part, memory_part, loop_part, rest_part,
  ready_part, round, Moment, polling,
}

-- The timeouts of the calls of `ppoll`.
abbrev pub polls : List Call → List Timespec
polls [] = []
polls (poll t ∷ cs) = t ∷ polls cs
polls (_ ∷ cs) = polls cs

abbrev pub prepares : List Call → ℕ
prepares [] = 0
prepares (prepare_read ∷ cs) = suc (prepares cs)
prepares (_ ∷ cs) = prepares cs

-- Calls that end a prepared read.
abbrev pub reads : List Call → ℕ
reads [] = 0
reads (read_events ∷ cs) = suc (reads cs)
reads (cancel_read ∷ cs) = suc (reads cs)
reads (_ ∷ cs) = reads cs

pub polls-append : (xs ys : List Call) → polls (xs ++ ys) ≡ polls xs ++ polls ys
polls-append [] ys = refl
polls-append (c ∷ xs) ys = ground (arith, polls-append xs ys)

pub prepares-append : (xs ys : List Call) → prepares (xs ++ ys) ≡ prepares xs + prepares ys
prepares-append [] ys = omega arith
prepares-append (c ∷ xs) ys = ground (arith, prepares-append xs ys)

pub reads-append : (xs ys : List Call) → reads (xs ++ ys) ≡ reads xs + reads ys
reads-append [] ys = omega arith
reads-append (c ∷ xs) ys = ground (arith, reads-append xs ys)

-- A `break` leaves the inner loop after one read, or cancelled read; the other ends do without.
abbrev pub reads_at : {W : Type 0} → RoundEnd W → ℕ
reads_at (again w) = 0
reads_at (leaves t w) = 1
reads_at returns_false = 0

-- Calls without a poll and a prepared read, and with `k` reads.
record Tally (k : ℕ) (cs : List Call) : Type 0 where
  no_poll : polls cs ≡ []
  no_prepare : prepares cs ≡ 0
  some_reads : reads cs ≡ k

-- The calls of a part that has an outcome, behind `j` reads.
abbrev Fits : {W : Type 0} → ℕ → Option (RoundEnd W × List Call) → Type 0
Fits j none = Unit {0}
Fits j (some (end, cs)) = (polls cs ≡ []) × (prepares cs ≡ 0) × (j + reads cs ≡ reads_at end)

abbrev Still : {W : Type 0} → Option (W × List Call) → Type 0
Still none = Unit {0}
Still (some (w, cs)) = Tally 0 cs

abbrev StillMaybe : {W : Type 0} → Option (Option (W × List Call)) → Type 0
StillMaybe none = Unit {0}
StillMaybe (some o) = Still o

module _ {Keymap State T : Type 0} (xkb : Xkb Keymap State)
    (on_task_expired : T → EventLoop T × Display Keymap State → EventLoop T × Display Keymap State)
    (dispatch : EventLoop T × Display Keymap State → EventLoop T × Display Keymap State)
    (threads : Moment
      → RoundInput
      → EventLoop T × Display Keymap State
      → EventLoop T × Display Keymap State) where
  abbrev World : Type 0
  World = EventLoop T × Display Keymap State

  after-Fits :
      (j k : ℕ) (calls : List Call) (o : Option (RoundEnd World × List Call))
      → Tally k calls
      → Fits (j + k) o
      → Fits j (after xkb on_task_expired dispatch threads calls o)
  after-Fits j k calls none h f = tt
  after-Fits j k calls (some (end, cs)) h f =
      ground
        (arith, polls-append calls cs, prepares-append calls cs, reads-append calls cs, h.no_poll)

  timer_part-Still :
      (i : RoundInput) (w : World)
      → StillMaybe (timer_part xkb on_task_expired dispatch threads i w)
  unfolding timer_part
  timer_part-Still i w = ground arith

  return_baton-Fits :
      (i : RoundInput) (w : World) → Fits 0 (return_baton xkb on_task_expired dispatch threads i w)
  unfolding return_baton
  return_baton-Fits i w = ground arith

  vsync_part-Fits :
      (i : RoundInput) (w : World) → Fits 0 (vsync_part xkb on_task_expired dispatch threads i w)
  unfolding vsync_part
  vsync_part-Fits i w = ground (arith, return_baton-Fits i w)

  memory_part-Still :
      (i : RoundInput) (w : World) → Still (memory_part xkb on_task_expired dispatch threads i w)
  unfolding memory_part
  memory_part-Still i w = ground arith

  loop_part-Fits :
      (i : RoundInput) (t r : ℕ) (w : World)
      → Fits 1 (loop_part xkb on_task_expired dispatch threads i t r w)
  unfolding loop_part
  loop_part-Fits i t r w = ground arith

  rest_part-Fits :
      (i : RoundInput) (t r : ℕ) (w : World)
      → Fits 0 (rest_part xkb on_task_expired dispatch threads i t r w)
  unfolding rest_part
  rest_part-Fits i t r w =
      after-Fits 0 1 ((if i.display_ready then read_events else cancel_read) ∷ []) _ (ground arith)
        (behind_memory (memory_part xkb on_task_expired dispatch threads i w)
          (memory_part-Still i w))
    where
      behind_memory :
          (o : Option (World × List Call))
          → Still o
          → Fits 1 (elim o [
            | none ↦ none
            | some (w', calls) ↦
                after xkb on_task_expired dispatch threads calls
                  (loop_part xkb on_task_expired dispatch threads i t r w')
          ])
      behind_memory none h = tt
      behind_memory (some (w', calls)) h = after-Fits 1 0 calls _ h (loop_part-Fits i t r w')

  ready_part-Fits :
      (i : RoundInput) (t r : ℕ) (w : World)
      → Fits 0 (ready_part xkb on_task_expired dispatch threads i t r w)
  unfolding ready_part
  ready_part-Fits i t r w =
      behind_timer (timer_part xkb on_task_expired dispatch threads i w) (timer_part-Still i w)
    where
      behind_timer :
          (o : Option (Option (World × List Call)))
          → StillMaybe o
          → Fits 0 (elim o [
            | none ↦ none
            | some none ↦ some (returns_false, [])
            | some (some (w', calls)) ↦ after xkb on_task_expired dispatch threads calls (
                if i.vsync_ready
                then vsync_part xkb on_task_expired dispatch threads i w'
                else rest_part xkb on_task_expired dispatch threads i t r w')
          ])
      behind_timer none h = tt
      behind_timer (some none) h = ground arith
      behind_timer (some (some (w', calls))) h = after-Fits 0 0 calls _ h (branch i.vsync_ready w')
        where
          branch :
              (b : Bool) (w' : World)
              → Fits 0 (
                  if b
                  then vsync_part xkb on_task_expired dispatch threads i w'
                  else rest_part xkb on_task_expired dispatch threads i t r w')
          branch true w' = vsync_part-Fits i w'
          branch false w' = rest_part-Fits i t r w'

  -- The calls of one round.
  pub record RoundCalls (timestamp now : ℕ) (end : RoundEnd World) (cs : List Call) : Type 0 where
    pub one_poll : polls cs ≡ set_sleep_to_next_platform_event timestamp now ∷ []
    pub no_prepare : prepares cs ≡ 0
    pub round_reads : reads cs ≡ reads_at end

  pub round-RoundCalls :
      (i : RoundInput) (t : ℕ) (w : World) (end : RoundEnd World) (cs : List Call)
      → round xkb on_task_expired dispatch threads i t w ≡ some (end, cs)
      → RoundCalls t i.sleep_now end cs
  unfolding round
  round-RoundCalls i t w end cs h = elim (Option-cases (retry is_eintr i.ppoll)) [
    | inl e ↦ absurd (ground arith)
    | inr ((fails x, rest), e) ↦ ground arith
    | inr ((done ready, rest), e) ↦
        elim (Option-cases
          (ready_part xkb on_task_expired dispatch threads i t ready (threads polling i w))) [
            | inl p ↦ absurd (ground arith)
            | inr ((end', calls), p) ↦
                ground (arith, ready_part-Fits i t ready (threads polling i w))
          ]
  ]
