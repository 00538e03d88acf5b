-- ===== src/Vsync/Examples.antt =====
-- Runs of the vsync code.
use flutter_embedder_wayland.Base.{
  ℕ, suc, ◌+◌, ◌*◌, ◌≤◌, ◌<◌, ◌≡◌, ◌≢◌, refl, true, [], ◌∷◌, ◌++◌, some, none, arith,
}
use flutter_embedder_wayland.Base.Int.{negsuc}
use flutter_embedder_wayland.Base.Syscall.{done}
use flutter_embedder_wayland.Vsync.{
  Vsync, new, frame_times, vsync_handler, vsync_callback, store_baton, vblank_of_refresh,
}
use flutter_embedder_wayland.Vsync.Timing.{frame_times_lem}
use flutter_embedder_wayland.Vsync.Refinement.{idle, serve, trace, phase_of, Reach-refines}
use flutter_embedder_wayland.Vsync.Progress.{Carried, at_first, then_on, baton_comes_back}
use flutter_embedder_wayland.Vsync.Handoff.{
  Threads, Reach, start, store, send, receive, handle, here, next, waiting, batons_returned,
}

-- The last frame was at 1000, the period is 100, and a baton waits.
abbrev ticking : Vsync
ticking = record { presentation_clk_id = 1; baton = 77; last_frame = 1000; vblank_time_ns = 100 }

times_of_ticking : frame_times ticking 1234 ≡ (1300, 1400)
unfolding frame_times
times_of_ticking = refl

frame_times_lem_example :
    (k : ℕ) × (1000 + k * 100 ≤ 1234)
    × (1234 < 1000 + suc k * 100)
    × ((frame_times ticking 1234).0 ≡ 1000 + suc k * 100)
    × ((frame_times ticking 1234).1 ≡ (frame_times ticking 1234).0 + 100)
frame_times_lem_example = frame_times_lem ticking 1234 (omega arith) (omega arith) (omega arith)

-- A negative rate becomes a huge period.
negative_rate : vblank_of_refresh (negsuc 0) ≡ some 18446743073709551616
unfolding vblank_of_refresh
negative_rate = refl

returned_baton :
    (vsync_handler (λ call. true) 1234 ticking).1.1
    ≡ some (record { baton = 77; frame_start_ns = 1300; frame_target_ns = 1400 })
unfolding vsync_handler
returned_baton = refl

second_baton : vsync_callback 78 (done 1) ticking ≡ none
unfolding vsync_callback
second_baton = refl

-- The engine hands over baton 5, and the main thread has read the notice.
abbrev stored : Vsync
unfolding new
stored = record new { baton = 5 }

one_stored : store_baton 5 new ≡ some (record new { baton = 5 })
unfolding store_baton new
one_stored = refl

abbrev notified : (s : Threads) × Reach start s
notified = (
  _,
  next
      (next (next here (store 5 (record new { baton = 5 }) refl (λ e. omega arith) one_stored))
        (send refl))
      (receive 0 refl refl),
)

batons_returned_example :
    (notified.0.returned ++ waiting notified.0.vsync.baton ≡ 5 ∷ []) × (notified.0.unread ≤ 1)
batons_returned_example = batons_returned notified.1

-- The notice is written and not yet read.
abbrev written : (s : Threads) × Reach start s
written = (
  _,
  next (next here (store 5 (record new { baton = 5 }) refl (λ e. omega arith) one_stored))
      (send refl),
)

-- The notice is answered at time 400.
abbrev served : (s : Threads) × Reach start s
served = (_, next notified.1 (handle (λ call. true) 400 refl))

Reach-refines_example : serve idle (trace served.1) ≡ some (phase_of served.0)
Reach-refines_example = Reach-refines served.1

baton_comes_back_example :
    (1 ≤ 3)
    × (notified.0.vsync.baton ≢ 0 → (v : Threads) × Carried written.0 2 v)
    × (notified.0.vsync.baton ≡ 0 → notified.0.returned ≡ 5 ∷ [])
baton_comes_back_example = baton_comes_back written.1 (then_on at_first (receive 0 refl refl) refl)
