-- ===== src/Renderer.antt =====
-- The callbacks of the OpenGL renderer that `SetupEngine` gives to the engine
-- (src/wayland_display.cc). EGL is an interface: what it does to the calling thread, with the laws of
-- its calls. A handle is a number, 0 for EGL_NO_SURFACE, EGL_NO_CONTEXT and a null pointer.
pub mod Current
mod Examples
use flutter_embedder_wayland.Base.{
  ℕ, ◌≡◌, Bool, true, false, List, [], ◌∷◌, ◌++◌, Option, none, some, ◌==◌, if◌then◌else◌,
}
use flutter_embedder_wayland.Base.Text.{Bytes, codes}
use flutter_embedder_wayland.Debug.{log_err, log_warning, dbg, log_last_egl_error}

-- What is current in a thread: the surfaces that are drawn to and read from, and the context.
pub record Binding : Type 0 where
  pub draw : ℕ
  pub read : ℕ
  pub context : ℕ

-- eglMakeCurrent and eglSwapBuffers with whether they return EGL_TRUE, and eglGetError. A call of
-- eglMakeCurrent that fails leaves what is current, and the other two never change it.
pub record Egl (E : Type 0) : Type 0 where
  pub current : E → Binding
  pub make_current : Binding → E → Bool × E
  pub swap_buffers : ℕ → E → Bool × E
  pub get_error : E → ℕ × E
  pub make_current-current :
      (b : Binding) (e : E)
      → current (make_current b e).1 ≡ (if (make_current b e).0 then b else current e)
  pub swap_buffers-current : (s : ℕ) (e : E) → current (swap_buffers s e).1 ≡ current e
  pub get_error-current : (e : E) → current (get_error e).1 ≡ current e

-- The members that the callbacks use.
pub record Handles : Type 0 where
  pub egl_surface : ℕ
  pub egl_context : ℕ
  pub resource_egl_surface : ℕ
  pub resource_egl_context : ℕ

-- The callbacks with a result of success.
pub data Callback : Type 0 where
  make_current clear_current present make_resource_current : Callback

abbrev pub onscreen : Handles → Binding
onscreen h = record { draw = h.egl_surface; read = h.egl_surface; context = h.egl_context }

abbrev pub nothing : Binding
nothing = record { draw = 0; read = 0; context = 0 }

abbrev pub resource : Handles → Binding
resource h = record {
  draw = h.resource_egl_surface;
  read = h.resource_egl_surface;
  context = h.resource_egl_context;
}

abbrev pub failure_text : Callback → Bytes
failure_text make_current = codes "Could not make the onscreen context current\n"
failure_text clear_current = codes "Could not clear the context\n"
failure_text present = codes "Could not swap the EGL buffer\n"
failure_text make_resource_current = codes "Could not make the RESOURCE context current\n"

module _ {E : Type 0} (egl : Egl E) (debug_level : ℕ) (h : Handles) where
  -- The call of EGL in a callback.
  egl_call : Callback → E → Bool × E
  egl_call make_current e = egl.make_current (onscreen h) e
  egl_call clear_current e = egl.make_current nothing e
  egl_call present e = egl.swap_buffers h.egl_surface e
  egl_call make_resource_current e = egl.make_current (resource h) e

  -- A callback: its result, and what it prints.
  unfoldable pub callback : Callback → E → Bool × (E × Bytes)
  unfolding egl_call
  callback c e =
      let (ok, e₁) = egl_call c e in
      let (last_error, e₂) = egl.get_error e₁ in
      if ok then (true, (e₁, [])) else (
        false,
        (
          e₂,
          log_last_egl_error debug_level last_error
              ++ dbg debug_level log_err (some (failure_text c)),
        ),
      )

  -- Callbacks one after the other in one thread: each with its result, and all that is printed.
  unfoldable pub callbacks : List Callback → E → List (Callback × Bool) × (E × Bytes)
  callbacks [] e = ([], (e, []))
  callbacks (c ∷ cs) e =
      let (ok, (e₁, printed)) = callback c e in
      let (results, (e₂, more)) = callbacks cs e₁ in ((c, ok) ∷ results, (e₂, printed ++ more))

-- `fbo_callback`.
unfoldable pub fbo_callback : ℕ
fbo_callback = 0

-- `gl_proc_resolver`, with eglGetProcAddress and dlsym: an address, and what it prints.
unfoldable pub gl_proc_resolver :
    ℕ → (Option Bytes → ℕ) → (Option Bytes → ℕ) → Option Bytes → ℕ × Bytes
gl_proc_resolver debug_level egl_get_proc_address dlsym name =
    let shown : Bytes = elim name [ none ↦ [] | some n ↦ n ] in
    let found = egl_get_proc_address name in
    let fallback = dlsym name in
    let using =
      dbg debug_level log_warning
        (some (codes "Using dlsym fallback to resolve: " ++ (shown ++ codes "\n."))) in
    let missing =
      dbg debug_level log_warning
        (some (codes "Tried unsuccessfully to resolve: " ++ (shown ++ codes "\n."))) in
    if found == 0
    then (if fallback == 0 then (0, using ++ missing) else (fallback, using))
    else (found, [])
