-- ===== src/Vsync/Timing.antt =====
-- The arithmetic of the frame times and of the refresh rate.
use native.Mathlib.Nat.{div-add-mod, mod-lt, le-div_iff_mul-le}
use flutter_embedder_wayland.Base.{
  ℕ, zero, suc, ◌+◌, ◌-◌, ◌*◌, ◌/◌, ◌%◌, ◌^◌, ◌≤◌, ◌<◌, ◌≡◌, refl, some, arith,
}
use flutter_embedder_wayland.Base.Int.{pos}
use flutter_embedder_wayland.Vsync.{Vsync, frame_times, vblank_of_refresh, sub64}

-- With a positive period, the last frame not after `now`, and `now` more than two periods below
-- 2 ^ 64: the start of the frame is the first instant after `now` that is a whole number of periods
-- after the last frame, and the target is one period later.
pub frame_times_lem :
    (v : Vsync) (now : ℕ)
    → 0 < v.vblank_time_ns
    → v.last_frame ≤ now
    → now + 2 * v.vblank_time_ns < 2 ^ 64
    → (k : ℕ) × (v.last_frame + k * v.vblank_time_ns ≤ now)
      × (now < v.last_frame + suc k * v.vblank_time_ns)
      × ((frame_times v now).0 ≡ v.last_frame + suc k * v.vblank_time_ns)
      × ((frame_times v now).1 ≡ (frame_times v now).0 + v.vblank_time_ns)
unfolding frame_times
frame_times_lem v now p past fits =
    let d = now - v.last_frame in
    let period = v.vblank_time_ns in
    let e : sub64 now v.last_frame ≡ d = omega arith in
    let split : period * (d / period) + d % period ≡ d = div-add-mod d period in
    let below : d % period < period = mod-lt d p in
    rw e (d / period, omega arith, omega arith, omega arith, omega arith)

-- Whatever the last frame is, with a positive period and `now` more than two periods below 2 ^ 64:
-- the start lies after `now` and at most one period ahead, and the target one period later.
pub frame_times_ahead :
    (v : Vsync) (now : ℕ)
    → 0 < v.vblank_time_ns
    → now + 2 * v.vblank_time_ns < 2 ^ 64
    → (now < (frame_times v now).0)
      × ((frame_times v now).0 ≤ now + v.vblank_time_ns)
      × ((frame_times v now).1 ≡ (frame_times v now).0 + v.vblank_time_ns)
unfolding frame_times
frame_times_ahead v now p fits = omega arith

-- A positive refresh rate in `int32_t` gives a period of at least 465 ns and at most 1000 s.
pub vblank_of_refresh_bounds :
    (refresh : ℕ)
    → 0 < refresh
    → refresh < 2 ^ 31
    → (period : ℕ) × (vblank_of_refresh (pos refresh) ≡ some period)
      × (465 ≤ period)
      × (period ≤ 1_000_000_000_000)
unfolding vblank_of_refresh
vblank_of_refresh_bounds zero p h = absurd (omega arith)
vblank_of_refresh_bounds (suc n) p h =
    (1_000_000_000_000 / suc n, refl, (le-div_iff_mul-le p).1 (omega arith), omega arith)
