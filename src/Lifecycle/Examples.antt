-- ===== src/Lifecycle/Examples.antt =====
-- The start and the end of a display.
use flutter_embedder_wayland.Base.{◌≡◌, refl, true, false, ◌&&◌, [], ◌∷◌}
use flutter_embedder_wayland.Lifecycle.Startup.{
  egl_ready, engine_ready, connects, is_valid, is_complete, construct_lem,
}
use flutter_embedder_wayland.Lifecycle.{
  Members, Answers, returns, new, construct, keymap, xkb_context, egl_display, compositor, shell,
  registry, display, destruct,
}

-- There is no EGL context, and all else is well.
abbrev no_context : Answers
no_context = record {
  socketpair = true;
  timerfd = true;
  connect = true;
  get_registry = true;
  compositor = true;
  shell = true;
  seat = false;
  output = false;
  presentation = true;
  kbd_grab_manager = false;
  egl = record {
    get_display = true;
    initialize = true;
    bind_api = true;
    choose_config = true;
    has_config = true;
    create_context = false;
    create_surface = true;
    get_shell_surface = true;
    create_window = true;
    create_resource_context = true;
    create_resource_surface = true;
    create_window_surface = true;
  };
  engine = record {
    icu_found = true;
    eventfd = true;
    runs_aot = true;
    aot_exists = true;
    aot_loaded = true;
    initialized = true;
    run = true;
    has_language = true;
    locales_updated = true;
    metrics_skipped = true;
    metrics_sent = true;
  };
}

abbrev stopped : Members
stopped = record {
  valid = false;
  display = true;
  registry = true;
  compositor = true;
  shell = true;
  seat = false;
  output = false;
  shell_surface = false;
  surface = false;
  window = false;
  egl_display = true;
  egl_surface = false;
  egl_context = false;
  resource_egl_surface = false;
  resource_egl_context = false;
  engine = false;
  presentation = true;
  kbd_grab_manager = false;
  vsync_sockets = true;
  key_timer = true;
  event_loop_fd = false;
  xkb_state = false;
}

stops_early : construct 1920 1080 no_context ≡ returns false stopped
unfolding construct new
stops_early = refl

released :
    destruct stopped
    ≡ shell ∷ keymap ∷ xkb_context ∷ egl_display ∷ compositor ∷ registry ∷ display ∷ []
unfolding destruct
released = refl

abbrev all_well : Answers
all_well = record no_context { egl = record (no_context.egl) { create_context = true } }

construct_lem_example :
    let r = construct 1920 1080 all_well in
    (is_valid r ≡ (
      connects 1920 1080 all_well
      && egl_ready all_well.egl true true
      && engine_ready all_well.engine))
    × (is_valid r ≡ true → is_complete r ≡ true)
construct_lem_example = construct_lem 1920 1080 all_well
