-- ===== src/Registry/Globals.antt =====
-- Which globals the display has after a round trip.
use flutter_embedder_wayland.Base.{
  ℕ, ◌≡◌, refl, ◌∙◌, ap, true, false, List, [], ◌∷◌, Option, none, some, arith, if◌then◌else◌, All,
  All-append,
}
use flutter_embedder_wayland.Base.Text.{Bytes}
use flutter_embedder_wayland.Registry.{
  str_eq, Global, compositor, shell, seat, output, presentation, kbd_grab_manager, interface_name,
  Bound, unbound, BindCall, bind, add_listener, on_global, on_globals,
}

-- One text is not equal to two that differ.
str_eq_differs : (a b s : Bytes) → str_eq a b ≡ false → str_eq s a ≡ true → str_eq s b ≡ false
unfolding str_eq
str_eq_differs [] [] s d h = absurd (cc)
str_eq_differs [] (y ∷ b) [] d h = refl
str_eq_differs [] (y ∷ b) (z ∷ s) d h = absurd (cc)
str_eq_differs (x ∷ a) [] [] d h = absurd (cc)
str_eq_differs (x ∷ a) [] (z ∷ s) d h = refl
str_eq_differs (x ∷ a) (y ∷ b) [] d h = refl
str_eq_differs (x ∷ a) (y ∷ b) (z ∷ s) d h = ground (arith, str_eq_differs a b s)

abbrev pub member : Global → Bound → Option ℕ
member compositor b = b.compositor_
member shell b = b.shell_
member seat b = b.seat_
member output b = b.output_
member presentation b = b.presentation_
member kbd_grab_manager b = b.kbd_grab_manager_

-- The name that was announced last for an interface.
abbrev pub last_name : Bytes → Option ℕ → List (ℕ × Bytes) → Option ℕ
last_name i seen [] = seen
last_name i seen ((name, interface) ∷ rest) =
    last_name i (if str_eq interface i then some name else seen) rest

-- The version that is asked for.
abbrev pub version : Global → ℕ
version seat = 4
version _ = 1

module _ (name : ℕ) (i : Bytes) (b : Bound) where
  abbrev Takes : Global → Type 0
  Takes g =
      member g (on_global name i b).0
      ≡ (if str_eq i (interface_name g) then some name else member g b)

  -- An interface that is one name is not another.
  apart :
      (e g : Global)
      → str_eq (interface_name e) (interface_name g) ≡ false
      → str_eq i (interface_name e) ≡ true
      → str_eq i (interface_name g) ≡ false
  apart e g = str_eq_differs (interface_name e) (interface_name g) i

  on_global-member : (g : Global) → Takes g
  unfolding on_global
  on_global-member compositor = ground arith
  on_global-member shell = ground (arith, apart compositor shell refl)
  on_global-member seat = ground (arith, apart compositor seat refl, apart shell seat refl)
  on_global-member output =
      ground (arith, apart compositor output refl, apart shell output refl, apart seat output refl)
  on_global-member presentation = ground (
    arith,
    apart compositor presentation refl,
    apart shell presentation refl,
    apart seat presentation refl,
    apart output presentation refl,
  )
  on_global-member kbd_grab_manager = ground (
    arith,
    apart compositor kbd_grab_manager refl,
    apart shell kbd_grab_manager refl,
    apart seat kbd_grab_manager refl,
    apart output kbd_grab_manager refl,
    apart presentation kbd_grab_manager refl,
  )

-- A call that binds asks for the version of its interface.
abbrev pub HasVersion : BindCall → Type 0
HasVersion (bind g name v) = v ≡ version g
HasVersion (add_listener g) = Unit {0}

on_global-HasVersion :
    (name : ℕ) (interface : Bytes) (b : Bound) → All HasVersion (on_global name interface b).1
unfolding on_global
on_global-HasVersion name interface b = ground arith

on_globals-member :
    (g : Global) (gs : List (ℕ × Bytes)) (b : Bound)
    → member g (on_globals gs b).0 ≡ last_name (interface_name g) (member g b) gs
unfolding on_globals
on_globals-member g [] b = refl
on_globals-member g ((name, interface) ∷ gs) b =
    on_globals-member g gs (on_global name interface b).0
    ∙ ap (λ seen. last_name (interface_name g) seen gs) (on_global-member name interface b g)

on_globals-HasVersion : (gs : List (ℕ × Bytes)) (b : Bound) → All HasVersion (on_globals gs b).1
unfolding on_globals
on_globals-HasVersion [] b = tt
on_globals-HasVersion ((name, interface) ∷ gs) b =
    All-append HasVersion (on_global name interface b).1 _ (on_global-HasVersion name interface b)
      (on_globals-HasVersion gs (on_global name interface b).0)

-- After any announcements, each of the six members is the global that was announced last under its
-- interface, and null if none was; other interfaces change nothing. Each global is bound at the
-- version of the code: 4 for the seat, 1 for all else.
pub on_globals_lem :
    (gs : List (ℕ × Bytes))
    → ((g : Global) → member g (on_globals gs unbound).0 ≡ last_name (interface_name g) none gs)
      × All HasVersion (on_globals gs unbound).1
on_globals_lem gs = (
  λ g.
      on_globals-member g gs unbound
      ∙ ap (λ seen. last_name (interface_name g) seen gs) (unbound-member g),
  on_globals-HasVersion gs unbound,
)
  where
    unbound-member : (g : Global) → member g unbound ≡ none
    unbound-member g = ground arith
