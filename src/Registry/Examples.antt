-- ===== src/Registry/Examples.antt =====
-- Announcements of a small compositor.
use flutter_embedder_wayland.Base.{ℕ, ◌≡◌, refl, List, [], ◌∷◌, some, none, All}
use flutter_embedder_wayland.Base.Text.{Bytes, codes}
use flutter_embedder_wayland.Registry.{Global, interface_name, unbound, on_global, on_globals}
use flutter_embedder_wayland.Registry.Globals.{member, last_name, HasVersion, on_globals_lem}

-- Two seats, and something that the display does not know.
abbrev announced : List (ℕ × Bytes)
announced =
    (1, codes "wl_compositor")
    ∷ (2, codes "wl_shm")
    ∷ (3, codes "wl_seat")
    ∷ (4, codes "wl_seat")
    ∷ []

taken : (on_globals announced unbound).0 ≡ record unbound { compositor_ = some 1; seat_ = some 4 }
unfolding on_globals on_global
taken = refl

on_globals_lem_example :
    ((g : Global)
      → member g (on_globals announced unbound).0 ≡ last_name (interface_name g) none announced)
    × All HasVersion (on_globals announced unbound).1
on_globals_lem_example = on_globals_lem announced
