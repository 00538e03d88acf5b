-- ===== src/Registry/Seat.antt =====
-- The listeners that the seat gets.
use flutter_embedder_wayland.Base.{ℕ, suc, ◌≡◌, refl, List, [], ◌∷◌, ◌++◌, arith, length, keep}
use flutter_embedder_wayland.Registry.{
  SeatCall, listen_to_pointer, listen_to_keyboard, has_pointer, has_keyboard, on_capabilities,
}

-- The listeners that a sequence of capability events adds.
abbrev listeners : List ℕ → List SeatCall
listeners [] = []
listeners (c ∷ cs) = on_capabilities c ++ listeners cs

abbrev keyboards : List SeatCall → ℕ
keyboards [] = 0
keyboards (listen_to_keyboard ∷ cs) = suc (keyboards cs)
keyboards (listen_to_pointer ∷ cs) = keyboards cs

abbrev pointers : List SeatCall → ℕ
pointers [] = 0
pointers (listen_to_pointer ∷ cs) = suc (pointers cs)
pointers (listen_to_keyboard ∷ cs) = pointers cs

-- A sequence of capability events of the seat adds one keyboard with a listener for each event that
-- has the capability of a keyboard, and one pointer for each that has that of a pointer.
listeners_counted :
    (cs : List ℕ)
    → (keyboards (listeners cs) ≡ length (keep has_keyboard cs))
      × (pointers (listeners cs) ≡ length (keep has_pointer cs))
unfolding on_capabilities
listeners_counted [] = (refl, refl)
listeners_counted (c ∷ cs) = ground (arith, listeners_counted cs)
