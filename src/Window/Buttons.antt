-- ===== src/Window/Buttons.antt =====
-- The pointer events of buttons.
use flutter_embedder_wayland.Base.{ℕ, ◌*◌, ◌<◌, ◌^◌, ◌≡◌, refl, List, [], ◌∷◌, arith, ◌==◌}
use flutter_embedder_wayland.Base.Int.{ℤ}
use flutter_embedder_wayland.Window.{Window, pointer_motion, pointer_button}

-- The motions of the pointer, in order.
abbrev pub moved : List (ℤ × ℤ) → Window → Window
moved [] w = w
moved ((x, y) ∷ ps) w = moved ps (pointer_motion x y w)

-- The place behind the motions.
abbrev pub place : ℤ × ℤ → List (ℤ × ℤ) → ℤ × ℤ
place p [] = p
place p (q ∷ ps) = place q ps

moved-place :
    (ps : List (ℤ × ℤ)) (w : Window)
    → ((moved ps w).surface_x, (moved ps w).surface_y) ≡ place (w.surface_x, w.surface_y) ps
unfolding pointer_motion
moved-place [] w = refl
moved-place ((x, y) ∷ ps) w = moved-place ps (pointer_motion x y w)

-- A press or release of a button behind motions is told at the place of the last one, and with its
-- time in microseconds for the first 2^32 / 1000 ms of the compositor's clock.
pointer_button-moved :
    (ps : List (ℤ × ℤ)) (time state : ℕ) (w : Window)
    → time * 1_000 < 2 ^ 32
    → let e = pointer_button time state (moved ps w) in
      ((e.x, e.y) ≡ place (w.surface_x, w.surface_y) ps)
      × (e.timestamp ≡ time * 1_000)
      × (e.down ≡ (state == 1))
unfolding pointer_button
pointer_button-moved ps time state w early = (moved-place ps w, omega arith, refl)
