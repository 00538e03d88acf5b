-- ===== src/Entry/Promises.antt =====
-- What the engine is told over the whole life of the program: the calls of the main loop among the
-- calls of the program are those of a run from the start.
pub mod Notices
pub mod Accounts
mod Examples
use flutter_embedder_wayland.Base.{
  ℕ, ◌+◌, ◌*◌, ◌^◌, ◌<◌, ◌≡◌, refl, sym, ◌∙◌, subst, ap, Bool, true, false, List, [], ◌∷◌, ◌++◌,
  map, Option, none, some, arith, All, if◌then◌else◌,
}
use mathlib.Core.List.{append-nil}
use flutter_embedder_wayland.Base.Text.{Bytes, codes}
use flutter_embedder_wayland.EventLoop.{EventLoop}
use flutter_embedder_wayland.Vsync
use flutter_embedder_wayland.MemoryWatcher
use flutter_embedder_wayland.MemoryWatcher.{cooldown}
use flutter_embedder_wayland.MemoryWatcher.Warnings.{IsSpaced}
use flutter_embedder_wayland.MemoryWatcher.Setup.Level.{setup-Stays}
use flutter_embedder_wayland.Keyboard.XkbCommon.{Xkb}
use flutter_embedder_wayland.Files.{asset_bundle_is_valid, get_env_string}
use flutter_embedder_wayland.Lifecycle.{
  Members, Resource, Started, exits, returns, construct, destruct,
}
use flutter_embedder_wayland.MainLoop.Listeners.{Changed, Changed-watcher}
use flutter_embedder_wayland.MainLoop.Warnings.{warnings, run_warnings-IsSpaced}
use flutter_embedder_wayland.MainLoop.Frames.{
  longest, AreFrames, RatesFit, HasPeriod, Changed-HasPeriod, run-AreFrames,
}
use flutter_embedder_wayland.MainLoop.{Display, Call, RoundInput, run, Moment}
use flutter_embedder_wayland.Entry.{
  Outside, answers_of, LaunchCall, grab_keyboard, grabs_keyboard, loop_call, released,
  leave_display, use_display, print_usage, flutter_arg, initialize, initialization, preamble,
  last_members, add_frame_listener, Result, returned, exited, fault, no_answer, still_running,
  start_world, run_display, launch, main, Process, alive, process_of,
}

abbrev pub loop_calls : List LaunchCall → List Call
loop_calls [] = []
loop_calls (loop_call c ∷ cs) = c ∷ loop_calls cs
loop_calls (_ ∷ cs) = loop_calls cs

loop_calls-append :
    (xs ys : List LaunchCall) → loop_calls (xs ++ ys) ≡ loop_calls xs ++ loop_calls ys
loop_calls-append [] ys = refl
loop_calls-append (c ∷ xs) ys = ground (arith, loop_calls-append xs ys)

loop_calls-map : (cs : List Call) → loop_calls (map loop_call cs) ≡ cs
loop_calls-map [] = refl
loop_calls-map (c ∷ cs) = ap (λ xs. c ∷ xs) (loop_calls-map cs)

loop_calls-flutter_arg : (args : List Bytes) → loop_calls (map flutter_arg args) ≡ []
loop_calls-flutter_arg [] = refl
loop_calls-flutter_arg (a ∷ args) = loop_calls-flutter_arg args

loop_calls-released : (rs : List Resource) → loop_calls (map released rs) ≡ []
loop_calls-released [] = refl
loop_calls-released (r ∷ rs) = loop_calls-released rs

module _ {Double : Type 0} (o : Outside Double) where
  loop_calls-initialization :
      (path : Bytes) (args : List Bytes) → loop_calls (initialization o path args) ≡ []
  unfolding initialization
  loop_calls-initialization path args = ground arith

  loop_calls-preamble : (path : Bytes) (args : List Bytes) → loop_calls (preamble o path args) ≡ []
  unfolding preamble
  loop_calls-preamble path args =
      loop_calls-append (map flutter_arg args) (initialization o path args)
      ∙ rw (loop_calls-flutter_arg args, loop_calls-initialization path args) refl

loop_calls-before :
    (xs ys : List LaunchCall) → loop_calls xs ≡ [] → loop_calls (xs ++ ys) ≡ loop_calls ys
loop_calls-before xs ys h = rw (loop_calls-append xs ys, h) refl

loop_calls-behind :
    (xs ys : List LaunchCall) → loop_calls ys ≡ [] → loop_calls (xs ++ ys) ≡ loop_calls xs
loop_calls-behind xs ys h = rw (loop_calls-append xs ys, h) (append-nil (loop_calls xs))

-- The state of a program that still runs.
abbrev world_of : {W : Type 0} → Result W → Option W
world_of (still_running w) = some w
world_of _ = none

abbrev pub alive_world : {W : Type 0} → Process W → Option W
alive_world (alive w) = some w
alive_world _ = none

module _ {Keymap State T Double : Type 0} (xkb : Xkb Keymap State)
    (on_task_expired : T → EventLoop T × Display Keymap State → EventLoop T × Display Keymap State)
    (dispatch : EventLoop T × Display Keymap State → EventLoop T × Display Keymap State)
    (threads : Moment
      → RoundInput
      → EventLoop T × Display Keymap State
      → EventLoop T × Display Keymap State)
    (o : Outside Double) (iterations : List (ℕ × List RoundInput)) where
  abbrev World : Type 0
  World = EventLoop T × Display Keymap State

  -- What holds of no call, and of the end and the calls of each run from `w`.
  pub record Holds (P : Option World → List Call → Type 0) (w : World) : Type 0 where
    pub of_none : P none []
    pub of_run :
        (end : Option World) (cs : List Call)
        → run xkb on_task_expired dispatch threads iterations w ≡ some (end, cs)
        → P end cs

  module _ (P : Option World → List Call → Type 0) where
    abbrev Says : Result World × List LaunchCall → Type 0
    Says p = P (world_of p.0) (loop_calls p.1)

    run_display-Says :
        (valid : Bool) (w : World)
        → Holds P w
        → Says (run_display xkb on_task_expired dispatch threads o valid iterations w)
    unfolding run_display
    run_display-Says false w h = h.of_none
    run_display-Says true w h = go (run xkb on_task_expired dispatch threads iterations w) refl
      where
        begin : List LaunchCall
        begin = add_frame_listener ∷ (if grabs_keyboard o then grab_keyboard ∷ [] else [])

        begin_plain : loop_calls begin ≡ []
        begin_plain = ground arith

        told : (more : List Call) → loop_calls (begin ++ map loop_call more) ≡ more
        told more =
            rw (loop_calls-before begin (map loop_call more) begin_plain) (loop_calls-map more)

        go :
            (e : Option (Option World × List Call))
            → run xkb on_task_expired dispatch threads iterations w ≡ e
            → Says (elim e [
              | none ↦ (no_answer, begin)
              | some (none, more) ↦ (returned false, begin ++ map loop_call more)
              | some (some w', more) ↦ (still_running w', begin ++ map loop_call more)
            ])
        go none e = subst (P none) (sym begin_plain) h.of_none
        go (some (none, more)) e = subst (P none) (sym (told more)) (h.of_run none more e)
        go (some (some v, more)) e = subst (P (some v)) (sym (told more)) (h.of_run (some v) more e)

    leave_display_plain :
        (m : Members) (r : Result World)
        → loop_calls (leave_display xkb on_task_expired dispatch threads o m r) ≡ []
    unfolding leave_display
    leave_display_plain m (returned ok) = loop_calls-released (destruct m)
    leave_display_plain m exited = refl
    leave_display_plain m fault = refl
    leave_display_plain m no_answer = refl
    leave_display_plain m (still_running w) = refl

    use_display-Says :
        (m : Members) (w : World) (p : Result World × List LaunchCall)
        → Holds P w
        → Says p
        → Says (use_display xkb on_task_expired dispatch threads o m p)
    unfolding use_display
    use_display-Says m w (r, cs) h k =
        let plain = leave_display_plain (last_members o m) in
        let behind =
          loop_calls-behind cs
            (leave_display xkb on_task_expired dispatch threads o (last_members o m) r) (plain r) in
        go m.valid (subst (P (world_of r)) (sym behind) k)
          (subst (P none) (sym (plain (returned false))) h.of_none)
      where
        go :
            (b : Bool)
            → Says
                (r, cs ++ leave_display xkb on_task_expired dispatch threads o (last_members o m) r)
            → Says (
              returned false,
              leave_display xkb on_task_expired dispatch threads o
                  (last_members o m)
                  (returned false),
            )
            → Says (
                if b
                then (
                  r,
                  cs ++ leave_display xkb on_task_expired dispatch threads o (last_members o m) r,
                )
                else (
                  returned false,
                  leave_display xkb on_task_expired dispatch threads o
                      (last_members o m)
                      (returned false),
                ))
        go true k n = k
        go false k n = n

    launch-Says :
        (meanwhile : World → World) (argv : List Bytes)
        → Holds P (meanwhile (start_world xkb on_task_expired dispatch threads o))
        → Says (launch xkb on_task_expired dispatch threads o meanwhile iterations argv)
    unfolding launch
    launch-Says meanwhile [] h = h.of_none
    launch-Says meanwhile (program ∷ []) h = h.of_none
    launch-Says meanwhile (program ∷ path ∷ flags) h =
        go (asset_bundle_is_valid o.sources.can_read path) (construct 1920 1080 (answers_of o path))
      where
        start : World
        start = meanwhile (start_world xkb on_task_expired dispatch threads o)

        args : List LaunchCall
        args = preamble o path (path ∷ flags)

        plain : loop_calls args ≡ []
        plain = loop_calls-preamble o path (path ∷ flags)

        used : Members → Result World × List LaunchCall
        used m =
            use_display xkb on_task_expired dispatch threads o m
              (run_display xkb on_task_expired dispatch threads o m.valid iterations start)

        go :
            (b : Bool) (s : Started)
            → Says (
                if b
                then elim s [
                  | exits ↦ (exited, args)
                  | returns ok m ↦ let (r, calls) = used m in (r, args ++ calls)
                ]
                else (returned false, print_usage ∷ []))
        go false s = h.of_none
        go true exits = subst (P none) (sym plain) h.of_none
        go true (returns ok m) =
            subst (P (world_of (used m).0)) (sym (loop_calls-before args (used m).1 plain))
              (use_display-Says m start _ h (run_display-Says m.valid start h))

    -- What holds of the end and the calls of each run from the start holds of those of the program.
    pub main-Says :
        (meanwhile : World → World) (argv : List Bytes)
        → Holds P (meanwhile (start_world xkb on_task_expired dispatch threads o))
        → let (process, calls) =
            main xkb on_task_expired dispatch threads o meanwhile iterations argv in
          P (alive_world process) (loop_calls calls)
    unfolding main process_of
    main-Says meanwhile argv h =
        go (launch xkb on_task_expired dispatch threads o meanwhile iterations argv)
          (launch-Says meanwhile argv h)
      where
        go :
            (p : Result World × List LaunchCall)
            → Says p
            → P
                (alive_world (process_of xkb on_task_expired dispatch threads o p.0))
                (loop_calls p.1)
        go (returned ok, cs) k = k
        go (exited, cs) k = k
        go (fault, cs) k = k
        go (no_answer, cs) k = k
        go (still_running w, cs) k = k
