-- ===== src/Entry/Ready.antt =====
-- The conditions under which `main` comes to the main loop.
use flutter_embedder_wayland.Base.{
  ℕ, ◌≡◌, ◌∙◌, ap, Bool, true, false, ◌&&◌, not, List, [], ◌∷◌, none,
}
use flutter_embedder_wayland.Base.Text.{Bytes}
use flutter_embedder_wayland.Registry.{
  Global, compositor, shell, interface_name, unbound, on_globals,
}
use flutter_embedder_wayland.Registry.Globals.{last_name, on_globals_lem}
use flutter_embedder_wayland.Files.{asset_bundle_is_valid}
use flutter_embedder_wayland.Lifecycle.{construct}
use flutter_embedder_wayland.Lifecycle.Startup.{
  egl_ready, engine_ready, connects, is_valid, construct_lem,
}
use flutter_embedder_wayland.Entry.{Outside, is_some, answers_of}

-- An interface that the registry has announced.
abbrev pub is_announced : Global → List (ℕ × Bytes) → Bool
is_announced g globals = is_some (last_name (interface_name g) none globals)

-- The conditions under which `Run` begins: a path, a valid bundle, and all answers of the
-- constructor, the compositor and the shell among the announced globals.
abbrev pub is_ready : {Double : Type 0} → Outside Double → List Bytes → Bool
is_ready o [] = false
is_ready o (program ∷ []) = false
is_ready o (program ∷ path ∷ flags) =
    asset_bundle_is_valid o.sources.can_read path
    && (connects 1920 1080 (answers_of o path)
        && egl_ready o.answers.egl (is_announced compositor o.globals)
            (is_announced shell o.globals)
        && engine_ready (answers_of o path).engine)

abbrev pub asks_for_help : {Double : Type 0} → Outside Double → List Bytes → Bool
asks_for_help o [] = false
asks_for_help o (program ∷ []) = true
asks_for_help o (program ∷ path ∷ flags) = not (asset_bundle_is_valid o.sources.can_read path)

-- The display is valid exactly where the constructor has all it needs.
pub construct-ready :
    {Double : Type 0} (o : Outside Double) (path : Bytes)
    → is_valid (construct 1920 1080 (answers_of o path)) ≡ (
        connects 1920 1080 (answers_of o path)
        && egl_ready o.answers.egl
            (is_announced compositor o.globals)
            (is_announced shell o.globals)
        && engine_ready (answers_of o path).engine)
unfolding answers_of
construct-ready o path =
    let (members, versions) = on_globals_lem o.globals in
    (construct_lem 1920 1080 (answers_of o path)).0
    ∙ ap
        (λ b.
          connects 1920 1080 (answers_of o path)
          && egl_ready o.answers.egl b (is_some ((on_globals o.globals unbound).0.shell_))
          && engine_ready (answers_of o path).engine)
        (ap is_some (members compositor))
    ∙ ap
        (λ b.
          connects 1920 1080 (answers_of o path)
          && egl_ready o.answers.egl (is_announced compositor o.globals) b
          && engine_ready (answers_of o path).engine)
        (ap is_some (members shell))

-- The answers in `SetupEGL` and the two globals that it needs are those of the outside.
pub answers_of-egl_ready :
    {Double : Type 0} (o : Outside Double) (path : Bytes)
    → egl_ready (answers_of o path).egl (answers_of o path).compositor (answers_of o path).shell
      ≡ egl_ready o.answers.egl (is_announced compositor o.globals) (is_announced shell o.globals)
unfolding answers_of
answers_of-egl_ready o path =
    let (members, versions) = on_globals_lem o.globals in
    ap (λ b. egl_ready o.answers.egl b (is_some ((on_globals o.globals unbound).0.shell_)))
      (ap is_some (members compositor))
    ∙ ap (λ b. egl_ready o.answers.egl (is_announced compositor o.globals) b)
        (ap is_some (members shell))
