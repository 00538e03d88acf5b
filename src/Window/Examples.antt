-- ===== src/Window/Examples.antt =====
-- Runs of the window code; a ratio is a number here.
use flutter_embedder_wayland.Base.{ℕ, ◌≡◌, refl, true, false, List, [], ◌∷◌, ◌++◌, some, none}
use flutter_embedder_wayland.Base.Int.{pos, to_u64}
use flutter_embedder_wayland.Vsync.{vblank_of_refresh}
use flutter_embedder_wayland.Window.Sizes.{
  mode, started, last_resize, last_metrics, Agrees, step, run, last_sizes_agree, modes,
  modes_before_start,
}
use flutter_embedder_wayland.Window.{
  Window, Metrics, WindowCall, resize, send_metrics, window_metrics, output_mode, engine_started,
}

abbrev first_window : Window
first_window = record {
  screen_width = pos 1920;
  screen_height = pos 1080;
  physical_width = pos 0;
  physical_height = pos 0;
  metrics_skipped = false;
  has_window = true;
  has_engine = false;
  surface_x = pos 0;
  surface_y = pos 0;
  vsync = record {
    presentation_clk_id = 1;
    baton = 0;
    last_frame = 0;
    vblank_time_ns = 16_666_666;
  };
}

abbrev started_window : Window
started_window = record first_window {
  screen_width = pos 640;
  screen_height = pos 480;
  has_engine = true;
  vsync = record {
    presentation_clk_id = 1;
    baton = 0;
    last_frame = 0;
    vblank_time_ns = 20_000_000;
  };
}

abbrev small_metrics : Metrics ℕ
small_metrics = record { width = 640; height = 480; pixel_ratio = 1 }

abbrev one : ℕ
one = 1

abbrev two : ℕ
two = 2

-- The engine starts, and then the output announces 640x480 at 50 Hz.
resized :
    run one two (started ∷ mode (pos 640) (pos 480) (pos 50_000) ∷ []) first_window
    ≡ some (started_window, send_metrics small_metrics ∷ resize (pos 640) (pos 480) ∷ [])
unfolding run step output_mode engine_started vblank_of_refresh window_metrics
resized = refl

last_sizes_agree_example :
    let calls : List (WindowCall ℕ) =
      send_metrics small_metrics ∷ resize (pos 640) (pos 480) ∷ [] in
    Agrees (last_resize none calls) (pos 640, pos 480)
    × Agrees (last_metrics none calls) (to_u64 (pos 640), to_u64 (pos 480))
last_sizes_agree_example =
    last_sizes_agree one two (started ∷ mode (pos 640) (pos 480) (pos 50_000) ∷ []) first_window
      started_window (send_metrics small_metrics ∷ resize (pos 640) (pos 480) ∷ []) resized

modes_before_start_example :
    (w' : Window) × (run one two
        (modes ((pos 640, pos 480, 49_999) ∷ []) ++ started ∷ [])
        first_window
      ≡ some (w', send_metrics (window_metrics one two first_window) ∷ []))
    × (w'.screen_width ≡ pos 1920)
    × (w'.screen_height ≡ pos 1080)
modes_before_start_example =
    modes_before_start one two (pos 640, pos 480, 49_999) [] first_window refl
