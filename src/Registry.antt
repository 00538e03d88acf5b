-- ===== src/Registry.antt =====
-- What the display takes from the compositor at the start (src/wayland_display.cc): the listeners of
-- the registry and the seat, and the ping of the shell surface.
pub mod Globals
pub mod Seat
mod Examples
use Prim.Native.Nat.{bit_and}
use flutter_embedder_wayland.Base.{
  ℕ, Bool, true, false, not, List, [], ◌∷◌, ◌++◌, Option, none, some, ◌==◌, if◌then◌else◌,
}
use flutter_embedder_wayland.Base.Text.{Bytes, codes}

-- strcmp(3) with result 0.
unfoldable pub str_eq : Bytes → Bytes → Bool
str_eq [] [] = true
str_eq [] (c ∷ s) = false
str_eq (c ∷ s) [] = false
str_eq (c ∷ s) (d ∷ t) = let rest = str_eq s t in if c == d then rest else false

-- The globals that the display uses.
pub data Global : Type 0 where
  compositor shell seat output presentation kbd_grab_manager : Global

-- Their interfaces. The last two are names that wayland-scanner generates from the protocols.
abbrev pub interface_name : Global → Bytes
interface_name compositor = codes "wl_compositor"
interface_name shell = codes "wl_shell"
interface_name seat = codes "wl_seat"
interface_name output = codes "wl_output"
interface_name presentation = codes "wp_presentation"
interface_name kbd_grab_manager = codes "zwp_xwayland_keyboard_grab_manager_v1"

-- The members for them: null, or the name of the global that was bound.
pub record Bound : Type 0 where
  pub compositor_ : Option ℕ
  pub shell_ : Option ℕ
  pub seat_ : Option ℕ
  pub output_ : Option ℕ
  pub presentation_ : Option ℕ
  pub kbd_grab_manager_ : Option ℕ

abbrev pub unbound : Bound
unbound = record {
  compositor_ = none;
  shell_ = none;
  seat_ = none;
  output_ = none;
  presentation_ = none;
  kbd_grab_manager_ = none;
}

-- wl_registry_bind with a name and a version, and the addition of a listener.
pub data BindCall : Type 0 where
  bind : Global → ℕ → ℕ → BindCall
  add_listener : Global → BindCall

-- The `global` event. No global is ever taken back: `global_remove` does nothing.
unfoldable pub on_global : ℕ → Bytes → Bound → Bound × List BindCall
unfolding str_eq
on_global name interface b =
    if str_eq interface (interface_name compositor)
    then (record b { compositor_ = some name }, bind compositor name 1 ∷ [])
    else if str_eq interface (interface_name shell)
    then (record b { shell_ = some name }, bind shell name 1 ∷ [])
    else if str_eq interface (interface_name seat)
    then (record b { seat_ = some name }, bind seat name 4 ∷ add_listener seat ∷ [])
    else if str_eq interface (interface_name output)
    then (record b { output_ = some name }, bind output name 1 ∷ add_listener output ∷ [])
    else if str_eq interface (interface_name presentation)
    then (
      record b { presentation_ = some name },
      bind presentation name 1 ∷ add_listener presentation ∷ [],
    )
    else if str_eq interface (interface_name kbd_grab_manager)
    then (record b { kbd_grab_manager_ = some name }, bind kbd_grab_manager name 1 ∷ [])
    else (b, [])

-- The announcements of a round trip, one after the other.
unfoldable pub on_globals : List (ℕ × Bytes) → Bound → Bound × List BindCall
on_globals [] b = (b, [])
on_globals ((name, interface) ∷ rest) b =
    let (b', calls) = on_global name interface b in
    let (b'', more) = on_globals rest b' in (b'', calls ++ more)

-- WL_SEAT_CAPABILITY_POINTER and _KEYBOARD of the Wayland protocol.
abbrev pub has_pointer : ℕ → Bool
has_pointer capabilities = not (bit_and capabilities 1 == 0)

abbrev pub has_keyboard : ℕ → Bool
has_keyboard capabilities = not (bit_and capabilities 2 == 0)

-- A new wl_pointer or wl_keyboard with the listener of the display.
pub data SeatCall : Type 0 where
  listen_to_pointer listen_to_keyboard : SeatCall

-- The `capabilities` event of the seat. A touch screen is only logged.
unfoldable pub on_capabilities : ℕ → List SeatCall
on_capabilities capabilities =
    (if has_pointer capabilities then listen_to_pointer ∷ [] else [])
    ++ (if has_keyboard capabilities then listen_to_keyboard ∷ [] else [])

-- The `ping` event of the shell surface: the serial of wl_shell_surface_pong.
unfoldable pub on_ping : ℕ → ℕ
on_ping serial = serial
