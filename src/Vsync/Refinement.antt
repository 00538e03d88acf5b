-- ===== src/Vsync/Refinement.antt =====
-- What the handover of batons promises, without the socket pair and the two threads: an exchange
-- with one open request at a time, in which each request gets one notice and then one answer. The
-- traces of the two threads are traces of the exchange.
use flutter_embedder_wayland.Base.{
  ℕ, ◌≡◌, refl, ◌∙◌, List, [], ◌∷◌, ◌++◌, map, Option, some, none, arith, ◌==◌, if◌then◌else◌,
  Option-cases, inl, inr,
}
use flutter_embedder_wayland.Base.Chain.{◌>>=◌}
use flutter_embedder_wayland.Vsync.{
  new, store_baton, vsync_handler, presented, frame_done, presentation_clock_id,
}
use flutter_embedder_wayland.Vsync.Handoff.{
  Threads, Step, Reach, start, store, send, receive, handle, clock, feedback, frame, here, next,
  returned_by, Inv, Reach-Inv,
}

-- What the engine sees of the exchange, and the notice between: it asks for a frame, the main thread
-- reads a notice, the main thread answers with `FlutterEngineOnVsync`.
pub data Event : Type 0 where
  asked : ℕ → Event
  noticed : Event
  answered : ℕ → Event

-- No request is open; one is, without a notice; one is, with its notice.
pub data Phase : Type 0 where
  idle : Phase
  wanted seen : ℕ → Phase

abbrev pub move : Phase → Event → Option Phase
move idle (asked b) = some (wanted b)
move (wanted b) noticed = some (seen b)
move (seen b) (answered c) = if b == c then some idle else none
move _ _ = none

-- The exchange allows these events, one after the other, and comes to this phase.
abbrev pub serve : Phase → List Event → Option Phase
serve p [] = some p
serve p (e ∷ es) = move p e >>= λ q. serve q es

abbrev pub step_events : {s u : Threads} → Step s u → List Event
step_events (store b v e nz g) = asked b ∷ []
step_events (send e) = []
step_events (receive n e f) = noticed ∷ []
step_events {s} (handle accepts now e) =
    map answered (returned_by (vsync_handler accepts now s.vsync).1.1)
step_events (clock clk_id) = []
step_events (feedback hi lo ns) = []
step_events (frame now) = []

abbrev pub trace : {s u : Threads} → Reach s u → List Event
trace here = []
trace (next r st) = trace r ++ step_events st

-- The phase that the threads have come to.
abbrev pub phase_of : Threads → Phase
phase_of s =
    if s.vsync.baton == 0
    then idle
    else if s.notified
    then seen (s.vsync.baton)
    else wanted (s.vsync.baton)

serve-append :
    (p q : Phase) (xs ys : List Event) → serve p xs ≡ some q → serve p (xs ++ ys) ≡ serve q ys
serve-append p q [] ys e = ground arith
serve-append p q (x ∷ xs) ys e = elim (Option-cases (move p x)) [
  | inl f ↦ absurd (ground arith)
  | inr (m, f) ↦ rw f (serve-append m q xs ys (ground arith))
]

-- A store asks, the read of a byte is the notice, and `vSyncHandler` answers; nothing else is seen.
Step-serve :
    {s u : Threads} (st : Step s u)
    → Inv s
    → serve (phase_of s) (step_events st) ≡ some (phase_of u)
unfolding store_baton vsync_handler presentation_clock_id presented frame_done
Step-serve {s} (store b v e nz g) i = ground arith
Step-serve {s} (send e) i = refl
Step-serve {s} (receive n e f) i = ground (arith, i.one_notice)
Step-serve {s} (handle accepts now e) i = ground (arith, i.one_notice)
Step-serve (clock clk_id) i = refl
Step-serve (feedback hi lo ns) i = refl
Step-serve {s} (frame now) i = ground arith

-- However the two threads interleave, the events of their steps are, in their order, events that the
-- exchange allows: the engine asks only while no request is open, each request gets one notice, and
-- only then one answer, with its own baton. The exchange is then in the phase that the threads have
-- come to.
pub Reach-refines : {s : Threads} (r : Reach start s) → serve idle (trace r) ≡ some (phase_of s)
unfolding new
Reach-refines here = refl
Reach-refines (next {u} r st) =
    serve-append idle (phase_of u) (trace r) (step_events st) (Reach-refines r)
    ∙ Step-serve st (Reach-Inv r)
