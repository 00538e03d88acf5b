-- ===== src/Vsync/Handoff.antt =====
-- The handover of batons between the engine's thread and the main thread. The engine's thread
-- stores the baton and then writes one byte to the socket pair; the main thread reads the byte and
-- then takes the baton.
use mathlib.Core.List.{append-nil}
use flutter_embedder_wayland.Base.{
  ℕ, suc, ◌+◌, ◌≡◌, ◌≢◌, ◌≤◌, refl, Bool, true, false, List, [], ◌∷◌, ◌++◌, Option, some, none,
  arith, ◌==◌, if◌then◌else◌,
}
use flutter_embedder_wayland.Vsync.{
  Vsync, OnVsync, no_baton, new, store_baton, vsync_handler, presented, frame_done,
  presentation_clock_id,
}

-- The two threads: whether the engine's is between the store and the write, how many bytes are
-- unread, whether the main thread has read one and not yet called `vSyncHandler`, and the batons
-- that the engine has handed over and got back.
pub record Threads : Type 0 where
  pub vsync : Vsync
  pub storing : Bool
  pub unread : ℕ
  pub notified : Bool
  pub handed_over : List ℕ
  pub returned : List ℕ

abbrev pub returned_by : Option OnVsync → List ℕ
returned_by none = []
returned_by (some call) = call.baton ∷ []

pub data Step (s : Threads) : Threads → Type 0 where
  -- The engine's `vsync_callback`, up to the write. The engine's batons are never 0.
  store :
      (b : ℕ) (v : Vsync)
      → s.storing ≡ false
      → b ≢ 0
      → store_baton b s.vsync ≡ some v
      → Step s (record s { vsync = v; storing = true; handed_over = s.handed_over ++ b ∷ [] })
  -- `vSyncSendNotifyData` succeeds.
  send : s.storing ≡ true → Step s (record s { storing = false; unread = s.unread + 1 })
  -- `vSyncReadNotifyData` returns 1.
  receive :
      (n : ℕ)
      → s.unread ≡ suc n
      → s.notified ≡ false
      → Step s (record s { unread = n; notified = true })
  -- `vSyncHandler`, after the byte was read.
  handle :
      (accepts : OnVsync → Bool) (now : ℕ)
      → s.notified ≡ true
      → Step s (record s {
        vsync = (vsync_handler accepts now s.vsync).1.0;
        notified = false;
        returned = s.returned ++ returned_by (vsync_handler accepts now s.vsync).1.1;
      })
  -- The listeners of the main thread.
  clock : (clk_id : ℕ) → Step s (record s { vsync = presentation_clock_id clk_id s.vsync })
  feedback :
      (tv_sec_hi tv_sec_lo tv_nsec : ℕ)
      → Step s (record s { vsync = presented tv_sec_hi tv_sec_lo tv_nsec s.vsync })
  frame : (now : ℕ) → Step s (record s { vsync = (frame_done now s.vsync).0 })

pub data Reach (s : Threads) : Threads → Type 0 where
  here : Reach s s
  next : {u v : Threads} → Reach s u → Step u v → Reach s v

abbrev pub start : Threads
start = record {
  vsync = new;
  storing = false;
  unread = 0;
  notified = false;
  handed_over = [];
  returned = [];
}

abbrev pub bit : Bool → ℕ
bit true = 1
bit false = 0

-- The baton that waits, if any.
abbrev pub waiting : ℕ → List ℕ
waiting b = if b == 0 then [] else b ∷ []

pub record Inv (s : Threads) : Type 0 where
  pub one_notice : bit s.storing + s.unread + bit s.notified ≡ (if s.vsync.baton == 0 then 0 else 1)
  pub accounted : s.returned ++ waiting s.vsync.baton ≡ s.handed_over

start-Inv : Inv start
unfolding new
start-Inv = record { one_notice = refl; accounted = refl }

pub Step-Inv : {s u : Threads} → Step s u → Inv s → Inv u
unfolding store_baton vsync_handler presentation_clock_id presented frame_done
Step-Inv {s} (store b v e nz g) i = ground (arith, append-nil s.returned)
Step-Inv (send e) i = ground arith
Step-Inv (receive n e f) i = ground arith
Step-Inv {s} (handle accepts now e) i =
    ground (arith, append-nil s.returned, append-nil (s.returned ++ s.vsync.baton ∷ []))
Step-Inv (clock clk_id) i = record { one_notice = i.one_notice; accounted = i.accounted }
Step-Inv (feedback hi lo ns) i = record { one_notice = i.one_notice; accounted = i.accounted }
Step-Inv (frame now) i = ground arith

pub Reach-Inv : {s : Threads} → Reach start s → Inv s
Reach-Inv here = start-Inv
Reach-Inv (next r st) = Step-Inv st (Reach-Inv r)

-- However the two threads interleave, the batons go back to the engine in the order in which they
-- came, each once, and all but the one that waits have gone back; at most one notice is unread.
pub batons_returned :
    {s : Threads}
    → Reach start s
    → (s.returned ++ waiting s.vsync.baton ≡ s.handed_over) × (s.unread ≤ 1)
batons_returned r = ((Reach-Inv r).accounted, ground (arith, (Reach-Inv r).one_notice))

-- After it has read a notice the main thread always finds a baton, so `vSyncHandler` calls the
-- engine, with that baton.
pub notified_finds_baton :
    {s : Threads} (accepts : OnVsync → Bool) (now : ℕ)
    → Reach start s
    → s.notified ≡ true
    → ((vsync_handler accepts now s.vsync).0 ≢ no_baton)
      × (s.returned ++ returned_by (vsync_handler accepts now s.vsync).1.1 ≡ s.handed_over)
unfolding vsync_handler
notified_finds_baton accepts now r e = ground (arith, Reach-Inv r)
