-- ===== src/Entry/Given.antt =====
-- What the engine has been initialized with when `Run` begins.
use flutter_embedder_wayland.Base.{
  ℕ, ◌≡◌, ◌<◌, ◌^◌, refl, sym, ◌∙◌, subst, Bool, true, false, ◌&&◌, ◌||◌, not, List, ◌∷◌, Option,
  none, some, arith, length, [], ◌++◌, map, if◌then◌else◌,
}
use mathlib.Core.List.{append-nil}
use flutter_embedder_wayland.Base.Text.{Bytes}
use flutter_embedder_wayland.EventLoop.{EventLoop}
use flutter_embedder_wayland.Keyboard.XkbCommon.{Xkb}
use flutter_embedder_wayland.Files.{asset_bundle_is_valid}
use flutter_embedder_wayland.Elf.{no_snapshots}
use flutter_embedder_wayland.Elf.Symbols.{aot_load_elf_lem}
use flutter_embedder_wayland.Engine.{ProjectArgs, libapp_aot_path}
use flutter_embedder_wayland.Engine.Arguments.{Given, can_initialize, is_given, engine_args_lem}
use flutter_embedder_wayland.Lifecycle.{
  EngineAnswers, Members, Started, exits, returns, before_engine, construct, destruct,
}
use flutter_embedder_wayland.Lifecycle.Startup.{
  connects, egl_ready, engine_ready, before_engine-ready,
}
use flutter_embedder_wayland.Registry.{compositor, shell}
use flutter_embedder_wayland.MainLoop.{run, Call, Display, RoundInput, Moment}
use flutter_embedder_wayland.Entry.{
  Outside, answers_of, main, launch, preamble, LaunchCall, add_frame_listener, grab_keyboard,
  grabs_keyboard, loop_call, Result, returned, exited, fault, no_answer, still_running, start_world,
  run_display, leave_display, use_display, last_members,
}
use flutter_embedder_wayland.Entry.Calls.{
  starts, count, initializations, initializations-append, initializations-map-released,
  initializations-map-loop_call, initializations-preamble,
}
use flutter_embedder_wayland.Entry.Ready.{is_announced, is_ready, answers_of-egl_ready}
use flutter_embedder_wayland.Entry.Launch.{main_lem}

last_three : (a b c d : Bool) → (a && (b && c && d)) ≡ true → (a ≡ true) × (d ≡ true)
last_three a b c d h = ground arith

middle_two : (a b c d : Bool) → (a && (b && c && d)) ≡ true → (b ≡ true) × (c ≡ true)
middle_two a b c d h = ground arith

first_three :
    (a : EngineAnswers)
    → engine_ready a ≡ true
    → (a.icu_found && a.eventfd && (not (a.runs_aot && a.aot_exists) || a.aot_loaded)) ≡ true
first_three a h = ground arith

module _ {Double : Type 0} (o : Outside Double) where
  answers_of-can_initialize :
      (path : Bytes)
      → engine_ready (answers_of o path).engine ≡ true
      → can_initialize o.sources path ≡ true
  unfolding answers_of
  answers_of-can_initialize path h =
      let loaded =
        (aot_load_elf_lem o.sources.dlopen o.sources.dlsym o.sources.strerror (libapp_aot_path path)
          0 0 no_snapshots).0 in
      let e = (answers_of o path).engine in
      subst (λ b. (e.icu_found && e.eventfd && (not (e.runs_aot && e.aot_exists) || b)) ≡ true)
        loaded (first_three e h)

  -- With the connection and all that EGL needs, the constructor comes to `SetupEngine`.
  reaches_engine :
      (path : Bytes)
      → (connects 1920 1080 (answers_of o path) ≡ true)
        × (egl_ready o.answers.egl
              (is_announced compositor o.globals)
              (is_announced shell o.globals)
            ≡ true)
      → (before_engine 1920 1080 (answers_of o path)).0 ≡ true
  reaches_engine path (h, e) =
      before_engine-ready 1920 1080 (answers_of o path) h (answers_of-egl_ready o path ∙ e)

module _ {Keymap State T Double : Type 0} (xkb : Xkb Keymap State)
    (on_task_expired : T → EventLoop T × Display Keymap State → EventLoop T × Display Keymap State)
    (dispatch : EventLoop T × Display Keymap State → EventLoop T × Display Keymap State)
    (threads : Moment
      → RoundInput
      → EventLoop T × Display Keymap State
      → EventLoop T × Display Keymap State)
    (o : Outside Double) where
  abbrev World : Type 0
  World = EventLoop T × Display Keymap State

  -- `Run` and the destructor do not initialize the engine.
  run_display_initializes :
      (valid : Bool) (iterations : List (ℕ × List RoundInput)) (w : World)
      → initializations (run_display xkb on_task_expired dispatch threads o valid iterations w).1
        ≡ []
  unfolding run_display
  run_display_initializes false iterations w = refl
  run_display_initializes true iterations w =
      go (run xkb on_task_expired dispatch threads iterations w)
    where
      begin : List LaunchCall
      begin = add_frame_listener ∷ (if grabs_keyboard o then grab_keyboard ∷ [] else [])

      begin_plain : initializations begin ≡ []
      begin_plain = ground arith

      looped : (more : List Call) → initializations (begin ++ map loop_call more) ≡ []
      looped more =
          rw (initializations-append begin (map loop_call more), begin_plain)
            (initializations-map-loop_call more)

      go :
          (e : Option (Option World × List Call))
          → initializations
              (elim e as (λ _. Result World × List LaunchCall) [
                | none ↦ (no_answer, begin)
                | some (none, more) ↦ (returned false, begin ++ map loop_call more)
                | some (some w', more) ↦ (still_running w', begin ++ map loop_call more)
              ]).1
            ≡ []
      go none = begin_plain
      go (some (none, more)) = looped more
      go (some (some w', more)) = looped more

  leave_display_initializes :
      (m : Members) (r : Result World)
      → initializations (leave_display xkb on_task_expired dispatch threads o m r) ≡ []
  unfolding leave_display
  leave_display_initializes m (returned ok) = initializations-map-released (destruct m)
  leave_display_initializes m exited = refl
  leave_display_initializes m fault = refl
  leave_display_initializes m no_answer = refl
  leave_display_initializes m (still_running w) = refl

  use_display_initializes :
      (m : Members) (p : Result World × List LaunchCall)
      → initializations p.1 ≡ []
      → initializations (use_display xkb on_task_expired dispatch threads o m p).1 ≡ []
  unfolding use_display
  use_display_initializes m (r, cs) h = ground (
    arith,
    leave_display_initializes (last_members o m) r,
    leave_display_initializes (last_members o m) (returned false),
    initializations-append cs
        (leave_display xkb on_task_expired dispatch threads o (last_members o m) r),
  )

  -- With a valid bundle, the engine is initialized as the preamble does it.
  main_initializes :
      (meanwhile : World → World) (iterations : List (ℕ × List RoundInput)) (program path : Bytes)
      (flags : List Bytes)
      → asset_bundle_is_valid o.sources.can_read path ≡ true
      → initializations
          (main xkb on_task_expired dispatch threads o meanwhile iterations
            (program ∷ path ∷ flags)).1
        ≡ initializations (preamble o path (path ∷ flags))
  unfolding main launch
  main_initializes meanwhile iterations program path flags h =
      go (asset_bundle_is_valid o.sources.can_read path) (construct 1920 1080 (answers_of o path)) h
    where
      begun : List LaunchCall
      begun = preamble o path (path ∷ flags)

      enter : Members → Result World × List LaunchCall
      enter m = use_display xkb on_task_expired dispatch threads o m (
          run_display xkb on_task_expired dispatch threads o m.valid iterations
            (meanwhile (start_world xkb on_task_expired dispatch threads o)))

      entered : (m : Members) → initializations (begun ++ (enter m).1) ≡ initializations begun
      entered m =
          let plain : initializations (enter m).1 ≡ [] =
            use_display_initializes m _ (run_display_initializes m.valid iterations _) in
          initializations-append begun (enter m).1 ∙ rw plain (append-nil (initializations begun))

      go :
          (b : Bool) (s : Started)
          → b ≡ true
          → initializations
              (if b
                then elim s as (λ _. Result World × List LaunchCall) [
                  | exits ↦ (exited, begun)
                  | returns ok m ↦ ((enter m).0, begun ++ (enter m).1)
                ]
                else (returned false, LaunchCall.print_usage ∷ [])).1
            ≡ initializations begun
      go false s e = absurd (cc)
      go true exits e = refl
      go true (returns ok m) e = entered m

  -- If `Run` begins, with fewer than 2 ^ 31 arguments, then the bundle at the first argument of the
  -- program is valid, and the engine has been initialized exactly once: with the path of the bundle,
  -- with all arguments of the program but its name, with a file of the data of ICU that can be read, and with the symbols of
  -- the library of the application, where the engine runs precompiled code and the bundle has one.
  pub main-Given :
      (meanwhile : World → World) (iterations : List (ℕ × List RoundInput)) (program path : Bytes)
      (flags : List Bytes)
      → length (path ∷ flags) < 2 ^ 31
      → let calls =
          (main xkb on_task_expired dispatch threads o meanwhile iterations
            (program ∷ path ∷ flags)).1 in
        starts calls ≡ 1
        → (asset_bundle_is_valid o.sources.can_read path ≡ true)
          × ((a : ProjectArgs) × (initializations calls ≡ a ∷ [])
              × Given o.sources path (path ∷ flags) a)
  main-Given meanwhile iterations program path flags h begins =
      let (shown, started, status, fails) =
        main_lem xkb on_task_expired dispatch threads o meanwhile iterations program
          (path ∷ flags) in
      let ready : is_ready o (program ∷ path ∷ flags) ≡ true = counted _ (sym started ∙ begins) in
      let (valid, engine) =
        last_three (asset_bundle_is_valid o.sources.can_read path)
          (connects 1920 1080 (answers_of o path))
          (egl_ready o.answers.egl (is_announced compositor o.globals)
            (is_announced shell o.globals))
          _ ready in
      let (given, args) = engine_args_lem o.sources path (path ∷ flags) h in
      let (a, is_args, fits) =
        is_given_inv _ (given ∙ answers_of-can_initialize o path engine) args in
      let reaches = reaches_engine o path (
        middle_two (asset_bundle_is_valid o.sources.can_read path)
          (connects 1920 1080 (answers_of o path)) _ _ ready) in
      (
        valid,
        (
          a,
          main_initializes meanwhile iterations program path flags valid
              ∙ initializations-preamble o path (path ∷ flags) a reaches is_args,
          fits,
        ),
      )
    where
      counted : (b : Bool) → count b ≡ 1 → b ≡ true
      counted true e = refl
      counted false e = absurd (cc)

      is_given_inv :
          (r : Option ProjectArgs)
          → is_given o.sources r ≡ true
          → ((a : ProjectArgs) → r ≡ some a → Given o.sources path (path ∷ flags) a)
          → (a : ProjectArgs) × (r ≡ some a) × Given o.sources path (path ∷ flags) a
      is_given_inv none e g = absurd (cc)
      is_given_inv (some a) e g = (a, refl, g a refl)
