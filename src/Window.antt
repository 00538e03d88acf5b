-- ===== src/Window.antt =====
-- The size of the window in `WaylandDisplay` (src/wayland_display.cc): the listeners of the shell
-- surface, the output and the pointer, and the end of `SetupEngine`, which send the engine window
-- metrics and pointer events. `Ratio` is `double`; `env_ratio` is the value of
-- FLUTTER_WAYLAND_PIXEL_RATIO as a number, or 1.0 without it.
pub mod Sizes
pub mod Buttons
mod Examples
use flutter_embedder_wayland.Base.{
  ℕ, ◌+◌, ◌-◌, ◌*◌, ◌%◌, ◌^◌, Bool, true, false, ◌||◌, List, [], ◌∷◌, Option, none, some, ◌==◌,
  if◌then◌else◌,
}
use flutter_embedder_wayland.Base.Int.{ℤ, pos, negsuc, to_u64}
use flutter_embedder_wayland.Base.Chain.{◌>>=◌}
use flutter_embedder_wayland.Vsync.{Vsync, vblank_of_refresh}

-- The members for the window. `has_window` and `has_engine` say that `window_` and `engine_` are
-- not null.
pub record Window : Type 0 where
  pub screen_width : ℤ
  pub screen_height : ℤ
  pub physical_width : ℤ
  pub physical_height : ℤ
  pub metrics_skipped : Bool
  pub has_window : Bool
  pub has_engine : Bool
  pub surface_x : ℤ
  pub surface_y : ℤ
  pub vsync : Vsync

-- `FlutterWindowMetricsEvent`.
pub record Metrics (Ratio : Type 0) : Type 0 where
  pub width : ℕ
  pub height : ℕ
  pub pixel_ratio : Ratio

-- wl_egl_window_resize and FlutterEngineSendWindowMetricsEvent.
pub data WindowCall (Ratio : Type 0) : Type 0 where
  resize : ℤ → ℤ → WindowCall Ratio
  send_metrics : Metrics Ratio → WindowCall Ratio

abbrev is_zero : ℤ → Bool
is_zero (pos n) = n == 0
is_zero (negsuc n) = false

module _ {Ratio : Type 0} (one env_ratio : Ratio) where
  -- `get_pixel_ratio`. As in the source, the physical width is not looked at.
  unfoldable pub get_pixel_ratio : ℤ → ℤ → ℤ → ℤ → Ratio
  get_pixel_ratio physical_width physical_height pixels_width pixels_height =
      if is_zero pixels_width
        || is_zero physical_height
        || is_zero pixels_width
        || is_zero pixels_height
      then one
      else env_ratio

  -- The metrics of the window as it is.
  unfoldable pub window_metrics : Window → Metrics Ratio
  unfolding get_pixel_ratio
  window_metrics w = record {
    width = to_u64 w.screen_width;
    height = to_u64 w.screen_height;
    pixel_ratio = get_pixel_ratio w.physical_width w.physical_height w.screen_width w.screen_height;
  }

  -- The `configure` event of the shell surface.
  unfoldable pub shell_configure : ℤ → ℤ → Window → Window × List (WindowCall Ratio)
  unfolding window_metrics
  shell_configure width height w =
      let w' : Window = record w { screen_width = width; screen_height = height } in
      if w.has_window
      then (w', resize width height ∷ send_metrics (window_metrics w') ∷ [])
      else (w, [])

  -- The `mode` event of the output. `none` is the fault of a division by zero.
  unfoldable pub output_mode : ℤ → ℤ → ℤ → Window → Option (Window × List (WindowCall Ratio))
  unfolding window_metrics vblank_of_refresh
  output_mode width height refresh w = vblank_of_refresh refresh >>= λ period.
      let w₁ : Window = record w { vsync = record (w.vsync) { vblank_time_ns = period } } in
      let w₂ : Window = record w₁ { screen_width = width; screen_height = height } in
      some (
        if w.has_engine
        then (w₂, send_metrics (window_metrics w₂) ∷ resize width height ∷ [])
        else (record w₁ { metrics_skipped = true }, []))

  -- The end of `SetupEngine`, where the engine runs: the metrics, if a mode event was skipped.
  unfoldable pub engine_started : Window → Window × List (WindowCall Ratio)
  unfolding window_metrics
  engine_started w =
      let w' : Window = record w { has_engine = true } in
      (w', if w.metrics_skipped then send_metrics (window_metrics w') ∷ [] else [])

-- The `geometry` event of the output.
unfoldable pub output_geometry : ℤ → ℤ → Window → Window
output_geometry physical_width physical_height w = record w {
  physical_width = physical_width;
  physical_height = physical_height;
}

-- The `motion` event of the pointer, whose coordinates are `wl_fixed_t`.
unfoldable pub pointer_motion : ℤ → ℤ → Window → Window
pointer_motion x y w = record w { surface_x = x; surface_y = y }

-- The parts of a `FlutterPointerEvent` that differ from event to event; the coordinates are still
-- `wl_fixed_t`.
pub record PointerEvent : Type 0 where
  pub down : Bool
  pub timestamp : ℕ
  pub x : ℤ
  pub y : ℤ

-- The `button` event of the pointer: `time` is in milliseconds, and the product is a `uint32_t`.
-- The number of the button is computed in the source and not used.
unfoldable pub pointer_button : ℕ → ℕ → Window → PointerEvent
pointer_button time state w = record {
  down = state == 1;
  timestamp = (time * 1_000) % 2 ^ 32;
  x = w.surface_x;
  y = w.surface_y;
}
