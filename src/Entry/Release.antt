-- ===== src/Entry/Release.antt =====
-- What is released when the process ends.
use flutter_embedder_wayland.Base.{◌≡◌, ◌≢◌, List, [], ◌∷◌, if◌then◌else◌}
use flutter_embedder_wayland.EventLoop.{EventLoop}
use flutter_embedder_wayland.Keyboard.XkbCommon.{Xkb}
use flutter_embedder_wayland.Lifecycle.{Members, Resource, destruct}
use flutter_embedder_wayland.MainLoop.{Display, RoundInput, Moment}
use flutter_embedder_wayland.Entry.{
  Outside, grabs_keyboard, LaunchCall, add_frame_listener, grab_keyboard, released, Result,
  returned, exited,
}

-- The calls of the destructor.
abbrev pub releases : List LaunchCall → List Resource
releases [] = []
releases (released r ∷ cs) = r ∷ releases cs
releases (_ ∷ cs) = releases cs

module _ {Keymap State T Double : Type 0} (xkb : Xkb Keymap State)
    (on_task_expired : T → EventLoop T × Display Keymap State → EventLoop T × Display Keymap State)
    (dispatch : EventLoop T × Display Keymap State → EventLoop T × Display Keymap State)
    (threads : Moment
      → RoundInput
      → EventLoop T × Display Keymap State
      → EventLoop T × Display Keymap State)
    (o : Outside Double) where
  abbrev World : Type 0
  World = EventLoop T × Display Keymap State

  -- The releases by how `Main` ends.
  abbrev due : Members → Result World → List Resource
  due m (returned ok) = destruct m
  due m _ = []

  abbrev begin : List LaunchCall
  begin = add_frame_listener ∷ (if grabs_keyboard o then grab_keyboard ∷ [] else [])

  -- Calls without a release, and a result that is not the one of `exit`.
  abbrev IsKept : Result World × List LaunchCall → Type 0
  IsKept p = (releases p.1 ≡ []) × (p.0 ≢ exited)

  -- The releases that are due have been made, and the process did not end by `exit`.
  abbrev IsDue : Members → Result World × List LaunchCall → Type 0
  IsDue m p = (releases p.1 ≡ due m p.0) × (p.0 ≢ exited)
