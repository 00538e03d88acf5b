-- ===== src/Lifecycle/Shutdown.antt =====
-- What the destructor releases, and in which order.
use flutter_embedder_wayland.Base.{ℕ, ◌≡◌, Bool, true, false, ◌&&◌, ◌||◌, List, [], ◌∷◌, ◌==◌, All}
use flutter_embedder_wayland.Lifecycle.{
  Members, Resource, engine, shell_surface, shell, output, seat, keymap, xkb_context, egl_surface,
  egl_display, window, surface, compositor, registry, display, egl_context, resource_egl_surface,
  resource_egl_context, presentation, kbd_grab_manager, vsync_sockets, key_timer, event_loop_fd,
  xkb_state,
}

-- What a resource was made from, directly.
abbrev pub made_from : Resource → List Resource
made_from engine =
    egl_display ∷ egl_surface ∷ surface ∷ egl_context ∷ resource_egl_context ∷ resource_egl_surface
    ∷ event_loop_fd ∷ []
made_from shell_surface = shell ∷ surface ∷ []
made_from shell = registry ∷ []
made_from output = registry ∷ []
made_from seat = registry ∷ []
made_from keymap = xkb_context ∷ []
made_from xkb_context = []
made_from egl_surface = egl_display ∷ window ∷ []
made_from egl_display = display ∷ []
made_from window = surface ∷ []
made_from surface = compositor ∷ []
made_from compositor = registry ∷ []
made_from registry = display ∷ []
made_from display = []
made_from egl_context = egl_display ∷ []
made_from resource_egl_surface = egl_display ∷ []
made_from resource_egl_context = egl_display ∷ egl_context ∷ []
made_from presentation = registry ∷ []
made_from kbd_grab_manager = registry ∷ []
made_from vsync_sockets = []
made_from key_timer = []
made_from event_loop_fd = []
made_from xkb_state = keymap ∷ []

-- A number for each resource, to compare them by.
abbrev pub number : Resource → ℕ
number engine = 0
number shell_surface = 1
number shell = 2
number output = 3
number seat = 4
number keymap = 5
number xkb_context = 6
number egl_surface = 7
number egl_display = 8
number window = 9
number surface = 10
number compositor = 11
number registry = 12
number display = 13
number egl_context = 14
number resource_egl_surface = 15
number resource_egl_context = 16
number presentation = 17
number kbd_grab_manager = 18
number vsync_sockets = 19
number key_timer = 20
number event_loop_fd = 21
number xkb_state = 22

abbrev pub is_in : Resource → List Resource → Bool
is_in r [] = false
is_in r (x ∷ xs) = number r == number x || is_in r xs

-- Nothing is released, and then something that was made from it, or it again.
abbrev pub IsSafe : List Resource → Type 0
IsSafe [] = Unit {0}
IsSafe (r ∷ rs) =
    All (λ later. (is_in r (made_from later) ≡ false) × ((number r == number later) ≡ false)) rs
    × IsSafe rs

-- The members that the resources stand in; those of xkbcommon are released even if they are null.
abbrev pub holds : Members → Resource → Bool
holds m engine = m.engine
holds m shell_surface = m.shell_surface
holds m shell = m.shell
holds m output = m.output
holds m seat = m.seat
holds m keymap = true
holds m xkb_context = true
holds m egl_surface = m.egl_surface
holds m egl_display = m.egl_display
holds m window = m.window
holds m surface = m.surface
holds m compositor = m.compositor
holds m registry = m.registry
holds m display = m.display
holds m egl_context = m.egl_context
holds m resource_egl_surface = m.resource_egl_surface
holds m resource_egl_context = m.resource_egl_context
holds m presentation = m.presentation
holds m kbd_grab_manager = m.kbd_grab_manager
holds m vsync_sockets = m.vsync_sockets
holds m key_timer = m.key_timer
holds m event_loop_fd = m.event_loop_fd
holds m xkb_state = m.xkb_state

-- What is held and never released: the EGL contexts and the surface of the resource context, two of
-- the globals, the socket pair of the vsync, the timer of the key repetition, the descriptor of the
-- event loop, and the state of xkbcommon.
abbrev pub is_leaked : Resource → Bool
is_leaked egl_context = true
is_leaked resource_egl_surface = true
is_leaked resource_egl_context = true
is_leaked presentation = true
is_leaked kbd_grab_manager = true
is_leaked vsync_sockets = true
is_leaked key_timer = true
is_leaked event_loop_fd = true
is_leaked xkb_state = true
is_leaked _ = false

-- The resources whose test in a list of guarded releases holds.
abbrev held_by : List (Bool × Resource) → Resource → Bool
held_by [] x = false
held_by ((held, r) ∷ rows) x = (number r == number x && held) || held_by rows x
