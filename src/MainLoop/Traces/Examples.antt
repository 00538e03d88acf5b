-- ===== src/MainLoop/Traces/Examples.antt =====
-- A run of the main loop in which the engine gets a frame and the compositor changes the mode.
use flutter_embedder_wayland.Base.{ℕ, ◌≡◌, refl, true, false, List, [], ◌∷◌, some}
use flutter_embedder_wayland.Base.Int.{pos}
use flutter_embedder_wayland.Base.Syscall.{done, retry}
use flutter_embedder_wayland.Time.{forever, set_sleep_to_next_platform_event}
use flutter_embedder_wayland.EventLoop.{EventLoop, process_events}
use flutter_embedder_wayland.EventLoop.Queue.{take_expired}
use flutter_embedder_wayland.Vsync.{
  vblank_of_refresh, vsync_handler, vsync_notify_data, frame_times,
}
use flutter_embedder_wayland.Keyboard.Examples.{small_xkb}
use flutter_embedder_wayland.MainLoop.Examples.{display, delayed, woken, run_task, alone}
use flutter_embedder_wayland.MainLoop.{
  Display, Call, prepare_read, cancel_read, dispatch_pending, flush, poll, on_vsync, process,
  RoundInput, ready_part, round, rounds, prepare, iteration, run,
}

-- The compositor tells a mode of 60 Hz.
abbrev mode_event : EventLoop ℕ × Display ℕ ℕ → EventLoop ℕ × Display ℕ ℕ
mode_event w = (w.0, record w.1 { vsync = record (w.1.vsync) { vblank_time_ns = 16_666_666 } })

sixty_hertz : vblank_of_refresh (pos 60_000) ≡ some 16_666_666
unfolding vblank_of_refresh
sixty_hertz = refl

-- The notice of a baton comes at time 1400, with a period of 1000; then the event loop is woken.
abbrev noticed : RoundInput
noticed = record woken {
  vsync_now = 1400;
  vsync_ready = true;
  vsync_read = done 1 ∷ [];
  loop_ready = false;
}

abbrev with_baton : ℕ → ℕ → Display ℕ ℕ
with_baton baton period = record display {
  vsync = record {
    presentation_clk_id = 1;
    baton = baton;
    last_frame = 1000;
    vblank_time_ns = period;
  };
}

abbrev one_frame : List (ℕ × List RoundInput)
one_frame = (0, noticed ∷ woken ∷ []) ∷ []

abbrev frame_calls : List Call
frame_calls =
    prepare_read
    ∷ flush
    ∷ poll forever
    ∷ on_vsync 1400 (record { baton = 77; frame_start_ns = 2000; frame_target_ns = 3000 })
    ∷ poll forever
    ∷ cancel_read
    ∷ process
    ∷ dispatch_pending
    ∷ []

frame_run :
    run small_xkb run_task mode_event alone one_frame (delayed, with_baton 77 1000)
    ≡ some (some (delayed, with_baton 0 16_666_666), frame_calls)
unfolding run iteration prepare rounds round ready_part set_sleep_to_next_platform_event retry
    vsync_handler vsync_notify_data frame_times process_events take_expired
frame_run = refl
