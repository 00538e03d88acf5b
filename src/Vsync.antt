-- ===== src/Vsync.antt =====
-- The vsync part of `WaylandDisplay` (src/wayland_display.h, src/wayland_display.cc): the engine
-- hands over a baton in its vsync callback, and the main thread returns it with the times of the
-- next frame. The clock and the results of the engine's and the kernel's calls are arguments.
pub mod Timing
pub mod Handoff
pub mod Refinement
pub mod Progress
mod Examples
use flutter_embedder_wayland.Base.{
  ℕ, zero, suc, ◌+◌, ◌-◌, ◌*◌, ◌/◌, ◌%◌, ◌^◌, Bool, true, false, List, Option, none, some, ◌==◌,
  if◌then◌else◌,
}
use flutter_embedder_wayland.Base.Int.{ℤ, pos, negsuc, neg_of, to_u64}
use flutter_embedder_wayland.Base.Syscall.{Rv, is_eintr, retry}

-- The members of `vsync`, but for the socket pair.
pub record Vsync : Type 0 where
  pub presentation_clk_id : ℕ  -- uint32_t
  pub baton : ℕ  -- the bits of an intptr_t
  pub last_frame : ℕ  -- uint64_t
  pub vblank_time_ns : ℕ  -- uint64_t

-- UINT32_MAX: no presentation clock.
abbrev pub no_clock : ℕ
no_clock = 2 ^ 32 - 1

-- The initializers of the members: 60 Hz.
unfoldable pub new : Vsync
new = record {
  presentation_clk_id = no_clock;
  baton = 0;
  last_frame = 0;
  vblank_time_ns = 1_000_000_000_000 / 60_000;
}

-- Arithmetic of `uint64_t`.
abbrev pub sub64 : ℕ → ℕ → ℕ
sub64 a b = (a + 2 ^ 64 - b) % 2 ^ 64

abbrev pub add64 : ℕ → ℕ → ℕ
add64 a b = (a + b) % 2 ^ 64

-- The arguments of `FlutterEngineOnVsync`.
pub record OnVsync : Type 0 where
  pub baton : ℕ
  pub frame_start_ns : ℕ
  pub frame_target_ns : ℕ

-- The times that `vSyncHandler` computes at `now`: of the next vsync, and of the one after it.
-- `x % 0` is a fault in C++; see `vblank_of_refresh`.
unfoldable pub frame_times : Vsync → ℕ → ℕ × ℕ
frame_times v now =
    let after_vsync_time_ns = sub64 now v.last_frame % v.vblank_time_ns in
    let before_next_vsync_time_ns = v.vblank_time_ns - after_vsync_time_ns in
    let current_ns = add64 now before_next_vsync_time_ns in
    (current_ns, add64 current_ns v.vblank_time_ns)

-- `vSyncHandler`: its result, the new state and the call of the engine. `accepts` says whether the
-- engine's call returns `kSuccess`.
pub data Result : Type 0 where
  no_baton failed sent : Result

unfoldable pub vsync_handler : (OnVsync → Bool) → ℕ → Vsync → Result × (Vsync × Option OnVsync)
unfolding frame_times
vsync_handler accepts now v =
    if v.baton == 0
    then (no_baton, (v, none))
    else let (current_ns, finish_time_ns) = frame_times v now in
      let call : OnVsync = record {
        baton = v.baton;
        frame_start_ns = current_ns;
        frame_target_ns = finish_time_ns;
      } in
      (if accepts call then sent else failed, (record v { baton = 0 }, some call))

-- What `vSyncSendNotifyData` and `vSyncReadNotifyData` return: the result of the first `write` or
-- `read` of one byte that was not interrupted.
unfoldable pub vsync_notify_data : List Rv → Option (Rv × List Rv)
unfolding retry
vsync_notify_data = retry is_eintr

-- The engine's `vsync_callback`, with the result of `vSyncSendNotifyData`; `none` is `exit(1)`.
abbrev is_one : Rv → Bool
is_one (Rv.done n) = n == 1
is_one (Rv.fails e) = false

-- Its first part: a baton that arrives while the old one waits is fatal.
unfoldable pub store_baton : ℕ → Vsync → Option Vsync
store_baton baton v = if v.baton == 0 then some (record v { baton = baton }) else none

unfoldable pub vsync_callback : ℕ → Rv → Vsync → Option Vsync
unfolding store_baton
vsync_callback baton rv v = elim (store_baton baton v) [
  | none ↦ none
  | some v' ↦ if is_one rv then some v' else none
]

-- `wp_presentation` announces its clock.
unfoldable pub presentation_clock_id : ℕ → Vsync → Vsync
presentation_clock_id clk_id v = record v { presentation_clk_id = clk_id }

-- The `presented` feedback: the time of the frame, from its three words.
unfoldable pub presented : ℕ → ℕ → ℕ → Vsync → Vsync
presented tv_sec_hi tv_sec_lo tv_nsec v = record v {
  last_frame = (((tv_sec_hi * 2 ^ 32 + tv_sec_lo) % 2 ^ 64) * 1_000_000_000 + tv_nsec) % 2 ^ 64;
}

-- The frame callback: it sets the time and asks for the next one (`true`), unless the presentation
-- clock is there.
unfoldable pub frame_done : ℕ → Vsync → Vsync × Bool
frame_done now v =
    if v.presentation_clk_id == no_clock then (record v { last_frame = now }, true) else (v, false)

-- `1'000'000'000'000 / refresh` in `int64_t`, stored in a `uint64_t`. `none` is the fault of a
-- division by zero.
unfoldable pub vblank_of_refresh : ℤ → Option ℕ
vblank_of_refresh (pos zero) = none
vblank_of_refresh (pos (suc n)) = some (1_000_000_000_000 / suc n)
vblank_of_refresh (negsuc n) = some (to_u64 (neg_of (1_000_000_000_000 / suc n)))
