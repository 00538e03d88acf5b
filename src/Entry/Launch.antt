-- ===== src/Entry/Launch.antt =====
-- When `main` comes to the main loop, what it prints, and the status of the process.
use flutter_embedder_wayland.Base.{
  ℕ, ◌≡◌, refl, ◌∙◌, Bool, true, false, ◌&&◌, not, List, [], ◌∷◌, ◌++◌, map, Option, none, some,
  arith, if◌then◌else◌,
}
use flutter_embedder_wayland.Base.Text.{Bytes}
use flutter_embedder_wayland.EventLoop.{EventLoop}
use flutter_embedder_wayland.Keyboard.XkbCommon.{Xkb}
use flutter_embedder_wayland.Files.{asset_bundle_is_valid}
use flutter_embedder_wayland.Lifecycle.{Members, destruct, Started, exits, returns, construct}
use flutter_embedder_wayland.Lifecycle.Startup.{is_valid}
use flutter_embedder_wayland.MainLoop.{Display, Call, RoundInput, run, Moment}
use flutter_embedder_wayland.Entry.{
  leave_display, use_display, fault, Outside, answers_of, grabs_keyboard, LaunchCall, print_usage,
  add_frame_listener, grab_keyboard, loop_call, Result, returned, exited, no_answer, still_running,
  preamble, last_members, Process, exit_status, crashed, stuck, alive, start_world, run_display,
  launch, process_of, main,
}
use flutter_embedder_wayland.Entry.Calls.{
  usages, starts, count, usages-append, starts-append, IsPlain, preamble-IsPlain,
  map-released-IsPlain, map-loop_call-IsPlain,
}
use flutter_embedder_wayland.Entry.Ready.{is_ready, asks_for_help, construct-ready}

module _ {Keymap State T Double : Type 0} (xkb : Xkb Keymap State)
    (on_task_expired : T → EventLoop T × Display Keymap State → EventLoop T × Display Keymap State)
    (dispatch : EventLoop T × Display Keymap State → EventLoop T × Display Keymap State)
    (threads : Moment
      → RoundInput
      → EventLoop T × Display Keymap State
      → EventLoop T × Display Keymap State)
    (o : Outside Double) where
  abbrev World : Type 0
  World = EventLoop T × Display Keymap State

  -- A result that gives the status 1, if it gives one at all.
  abbrev pub Fails : Process World → Type 0
  Fails (exit_status n) = n ≡ 1
  Fails _ = Unit {0}

  abbrev process : Result World → Process World
  process = process_of xkb on_task_expired dispatch threads o

  -- What holds of the result and the calls, by whether the usage is due and `Run` begins.
  record Outcome (help ready : Bool) (p : Result World × List LaunchCall) : Type 0 where
    shown : usages p.1 ≡ count help
    started : starts p.1 ≡ count ready
    fails : Fails (process p.0)
    not_started : ready ≡ false → process p.0 ≡ exit_status 1

  abbrev begin : List LaunchCall
  begin = add_frame_listener ∷ (if grabs_keyboard o then grab_keyboard ∷ [] else [])

  begin_calls :
      (cs : List Call)
      → (usages (begin ++ map loop_call cs) ≡ 0) × (starts (begin ++ map loop_call cs) ≡ 1)
  begin_calls cs = ground (
    arith,
    usages-append begin (map loop_call cs),
    starts-append begin (map loop_call cs),
    map-loop_call-IsPlain cs,
  )

  run_display-Outcome :
      (iterations : List (ℕ × List RoundInput)) (w : World)
      → Outcome false true (run_display xkb on_task_expired dispatch threads o true iterations w)
  unfolding run_display process_of
  run_display-Outcome iterations w = go (run xkb on_task_expired dispatch threads iterations w)
    where
      go :
          (e : Option (Option World × List Call))
          → Outcome false true (elim e [
            | none ↦ (no_answer, begin)
            | some (none, more) ↦ (returned false, begin ++ map loop_call more)
            | some (some w', more) ↦ (still_running w', begin ++ map loop_call more)
          ])
      go none = ground arith
      go (some (none, cs)) = ground (arith, begin_calls cs)
      go (some (some w', cs)) = ground (arith, begin_calls cs)

  after_args :
      (path : Bytes) (args : List Bytes) (ready : Bool) (r : Result World) (cs : List LaunchCall)
      → Outcome false ready (r, cs)
      → Outcome false ready (r, preamble o path args ++ cs)
  after_args path args ready r cs h = ground (
    arith,
    usages-append (preamble o path args) cs,
    starts-append (preamble o path args) cs,
    preamble-IsPlain o path args,
  )

  leave_display-IsPlain :
      (m : Members) (r : Result World)
      → IsPlain (leave_display xkb on_task_expired dispatch threads o m r)
  unfolding leave_display
  leave_display-IsPlain m (returned ok) = map-released-IsPlain (destruct m)
  leave_display-IsPlain m exited = (refl, refl)
  leave_display-IsPlain m fault = (refl, refl)
  leave_display-IsPlain m no_answer = (refl, refl)
  leave_display-IsPlain m (still_running w) = (refl, refl)

  use_display-Outcome :
      (m : Members) (ready : Bool) (p : Result World × List LaunchCall)
      → m.valid ≡ ready
      → (ready ≡ true → Outcome false true p)
      → Outcome false ready (use_display xkb on_task_expired dispatch threads o m p)
  unfolding use_display process_of
  use_display-Outcome m true (r, cs) e h =
      let k = h refl in
      rw e (
        ground (
          arith,
          usages-append cs
              (leave_display xkb on_task_expired dispatch threads o (last_members o m) r),
          starts-append cs
              (leave_display xkb on_task_expired dispatch threads o (last_members o m) r),
          leave_display-IsPlain (last_members o m) r,
        ))
  use_display-Outcome m false (r, cs) e h =
      rw e (ground (arith, leave_display-IsPlain (last_members o m) (returned false)))

  launch-Outcome :
      (meanwhile : World → World) (iterations : List (ℕ × List RoundInput)) (program : Bytes)
      (flags : List Bytes)
      → Outcome
          (asks_for_help o (program ∷ flags))
          (is_ready o (program ∷ flags))
          (launch xkb on_task_expired dispatch threads o meanwhile iterations (program ∷ flags))
  unfolding launch process_of
  launch-Outcome meanwhile iterations program [] = ground arith
  launch-Outcome meanwhile iterations program (path ∷ flags) =
      go (asset_bundle_is_valid o.sources.can_read path) (construct 1920 1080 (answers_of o path)) _
        (construct-ready o path)
    where
      args : List Bytes
      args = path ∷ flags

      enter : Members → Result World × List LaunchCall
      enter m = use_display xkb on_task_expired dispatch threads o m (
          run_display xkb on_task_expired dispatch threads o m.valid iterations
            (meanwhile (start_world xkb on_task_expired dispatch threads o)))

      enter-Outcome : (m : Members) (ready : Bool) → m.valid ≡ ready → Outcome false ready (enter m)
      enter-Outcome m ready e = use_display-Outcome m ready _ e (λ is_ready. rw (e ∙ is_ready) (
          run_display-Outcome iterations
            (meanwhile (start_world xkb on_task_expired dispatch threads o))))

      go :
          (b : Bool) (s : Started) (ready : Bool)
          → is_valid s ≡ ready
          → Outcome (not b) (b && ready) (
              if b
              then elim s [
                | exits ↦ (exited, preamble o path args)
                | returns ok m ↦ ((enter m).0, preamble o path args ++ (enter m).1)
              ]
              else (returned false, print_usage ∷ []))
      go false s ready e = ground arith
      go true exits true e = absurd (ground arith)
      go true exits false e = ground (arith, preamble-IsPlain o path args)
      go true (returns ok m) ready e =
          after_args path args ready (enter m).0 (enter m).1 (enter-Outcome m ready e)

  -- For a program with its name among the arguments: the usage is printed once if there is no path
  -- or the bundle at the path is not valid, and never otherwise; `Run` begins exactly if there is a
  -- valid bundle and the constructor has all it needs, with wl_compositor and wl_shell among the
  -- globals; and the status of the process is 1 whenever it ends by a return or by `exit` in the
  -- main thread, which it always does where `Run` does not begin.
  pub main_lem :
      (meanwhile : World → World) (iterations : List (ℕ × List RoundInput)) (program : Bytes)
      (flags : List Bytes)
      → let argv = program ∷ flags in
        let (process, calls) =
          main xkb on_task_expired dispatch threads o meanwhile iterations argv in
        (usages calls ≡ count (asks_for_help o argv))
        × (starts calls ≡ count (is_ready o argv))
        × ((n : ℕ) → process ≡ exit_status n → n ≡ 1)
        × (is_ready o argv ≡ false → process ≡ exit_status 1)
  unfolding main
  main_lem meanwhile iterations program flags =
      let h = launch-Outcome meanwhile iterations program flags in
      (h.shown, h.started, status _ h.fails, h.not_started)
    where
      status : (p : Process World) → Fails p → (n : ℕ) → p ≡ exit_status n → n ≡ 1
      status (exit_status m) f n e = ground arith
      status crashed f n e = absurd (cc)
      status stuck f n e = absurd (cc)
      status (alive w) f n e = absurd (cc)
