-- ===== src/Renderer/Examples.antt =====
-- The renderer with a small EGL.
use flutter_embedder_wayland.Base.{
  ◌≡◌, refl, Bool, true, false, List, [], ◌∷◌, some, if◌then◌else◌, All,
}
use flutter_embedder_wayland.Base.Text.{codes}
use flutter_embedder_wayland.Locale.{c_str}
use flutter_embedder_wayland.Debug.{dbg}
use flutter_embedder_wayland.Renderer.Current.{told, callbacks_lem}
use flutter_embedder_wayland.Renderer.{
  Binding, Egl, Handles, Callback, make_current, clear_current, present, make_resource_current,
  callback, nothing, callbacks, gl_proc_resolver,
}

-- What is current, and the answers of the calls to come; without an answer a call fails.
abbrev Small : Type 0
Small = Binding × List Bool

abbrev bind_next : Binding → Small → Bool × Small
bind_next b (c, []) = (false, (c, []))
bind_next b (c, true ∷ answers) = (true, (b, answers))
bind_next b (c, false ∷ answers) = (false, (c, answers))

abbrev swap_next : Small → Bool × Small
swap_next (c, []) = (false, (c, []))
swap_next (c, answer ∷ answers) = (answer, (c, answers))

bind_next-current :
    (b : Binding) (e : Small) → (bind_next b e).1.0 ≡ (if (bind_next b e).0 then b else e.0)
bind_next-current b (c, []) = refl
bind_next-current b (c, true ∷ answers) = refl
bind_next-current b (c, false ∷ answers) = refl

swap_next-current : (e : Small) → (swap_next e).1.0 ≡ e.0
swap_next-current (c, []) = refl
swap_next-current (c, answer ∷ answers) = refl

-- Its errors are EGL_CONTEXT_LOST.
abbrev small_egl : Egl Small
small_egl = record {
  current = λ e. e.0;
  make_current = bind_next;
  swap_buffers = λ s e. swap_next e;
  get_error = λ e. (0x300e, e);
  make_current-current = bind_next-current;
  swap_buffers-current = λ s e. swap_next-current e;
  get_error-current = λ e. refl;
}

abbrev handles : Handles
handles = record {
  egl_surface = 1;
  egl_context = 2;
  resource_egl_surface = 3;
  resource_egl_context = 4;
}

-- A frame, and then the context is lost.
abbrev frame : List Callback
frame = make_current ∷ present ∷ clear_current ∷ make_resource_current ∷ []

abbrev start : Small
start = (nothing, true ∷ true ∷ false ∷ [])

frame_results :
    (callbacks small_egl 6 handles frame start).0
    ≡ (make_current, true)
      ∷ (present, true)
      ∷ (clear_current, false)
      ∷ (make_resource_current, false)
      ∷ []
unfolding callbacks callback
frame_results = refl

callbacks_lem_example :
    let (results, (e', printed)) = callbacks small_egl 6 handles frame start in
    (e'.0 ≡ told handles nothing results) × (All (λ r. r.1 ≡ true) results → printed ≡ [])
callbacks_lem_example = callbacks_lem small_egl 6 handles frame start

-- A name that only dlsym knows.
found_by_dlsym :
    gl_proc_resolver 6 (λ name. 0) (λ name. 8) (some (codes "glFlush"))
    ≡ (8, codes "WARNING: Using dlsym fallback to resolve: glFlush\n.")
unfolding gl_proc_resolver dbg c_str
found_by_dlsym = refl
