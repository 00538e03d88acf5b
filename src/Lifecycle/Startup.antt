-- ===== src/Lifecycle/Startup.antt =====
-- When the constructor makes a valid display, and what that has.
use flutter_embedder_wayland.Base.{
  ℕ, ◌≡◌, ◌≢◌, refl, Bool, true, false, ◌&&◌, ◌||◌, not, arith, ◌==◌, Bool-cases, inl, inr, ap, sym,
  ◌∙◌, ◌%◌, ◌^◌,
}
use flutter_embedder_wayland.Lifecycle.{
  Members, new, EglAnswers, setup_egl, EngineAnswers, Started, exits, returns, setup_engine,
  Answers, start_engine, before_engine, construct,
}

-- Every answer that `SetupEGL` tests, and the two globals that it needs.
abbrev pub egl_ready : EglAnswers → Bool → Bool → Bool
egl_ready a compositor shell =
    a.get_display && a.initialize && a.bind_api && a.choose_config && a.has_config
    && a.create_context && compositor && shell && a.create_surface && a.get_shell_surface
    && a.create_window && a.create_window_surface

-- What the main loop and the engine work with.
abbrev pub has_all : Members → Bool
has_all m =
    m.display && m.registry && m.compositor && m.shell && m.shell_surface && m.surface && m.window
    && m.egl_display && m.egl_surface && m.egl_context && m.engine

setup_egl_lem :
    (a : EglAnswers) (m : Members)
    → let (ok, m') = setup_egl a m in
      (ok ≡ egl_ready a m.compositor m.shell)
      × (m'.valid ≡ m.valid)
      × (ok ≡ true
          → m' ≡ record m {
            egl_display = true;
            egl_context = true;
            surface = true;
            shell_surface = true;
            window = true;
            resource_egl_context = a.create_resource_context;
            resource_egl_surface = a.create_resource_surface;
            egl_surface = true;
          })
unfolding setup_egl
setup_egl_lem a m = ground arith

-- Every answer that `SetupEngine` needs.
abbrev pub engine_ready : EngineAnswers → Bool
engine_ready a =
    a.icu_found
    && a.eventfd
    && (not (a.runs_aot && a.aot_exists) || a.aot_loaded)
    && a.initialized
    && a.run
    && (not a.has_language || a.locales_updated)
    && (not a.metrics_skipped || a.metrics_sent)

-- `IsValid` of the display that is made.
abbrev pub is_valid : Started → Bool
is_valid exits = false
is_valid (returns ok m) = m.valid

abbrev pub is_complete : Started → Bool
is_complete exits = false
is_complete (returns ok m) = has_all m

abbrev succeeds : Started → Bool
succeeds exits = false
succeeds (returns ok m) = ok

-- A start that gives members, with `valid_` as it was.
abbrev KeepsValid : Bool → Started → Type 0
KeepsValid b exits = Unit {0}
KeepsValid b (returns ok m) = m.valid ≡ b

setup_engine-succeeds :
    (a : EngineAnswers) (m : Members) → succeeds (setup_engine a m) ≡ engine_ready a
unfolding setup_engine
setup_engine-succeeds a m = ground arith

setup_engine-KeepsValid : (a : EngineAnswers) (m : Members) → KeepsValid m.valid (setup_engine a m)
unfolding setup_engine
setup_engine-KeepsValid a m = ground arith

setup_engine_ready :
    (a : EngineAnswers) (m : Members)
    → engine_ready a ≡ true
    → setup_engine a m ≡ returns true (record m { event_loop_fd = true; engine = true })
unfolding setup_engine
setup_engine_ready a m h = ground arith

-- The end of the start, from the result of `SetupEGL`.
start_engine_lem :
    (a : Answers) (ok : Bool) (m : Members)
    → m.valid ≡ false
    → (is_valid (start_engine a (ok, m)) ≡ (ok && engine_ready a.engine))
      × (ok ≡ true
          → engine_ready a.engine ≡ true
          → start_engine a (ok, m)
            ≡ returns true (record m { event_loop_fd = true; engine = true; valid = true }))
unfolding start_engine
start_engine_lem a false m v = (v, λ h. absurd (cc))
start_engine_lem a true m v = (
  go (setup_engine a.engine m) (setup_engine-succeeds a.engine m)
      (setup_engine-KeepsValid a.engine m),
  λ h ready. rw (setup_engine_ready a.engine m ready, start_engine) refl,
)
  where
    go :
        (r : Started)
        → succeeds r ≡ engine_ready a.engine
        → KeepsValid m.valid r
        → is_valid (elim r [
          | exits ↦ exits
          | returns false m' ↦ returns false m'
          | returns true m' ↦ returns true (record m' { valid = true })
        ])
          ≡ engine_ready a.engine
    go exits s k = s
    go (returns false m') s k = k ∙ (v ∙ s)
    go (returns true m') s k = s

-- The members behind the connection to the compositor.
abbrev connected : Answers → Members
connected a = record {
  valid = false;
  display = true;
  registry = true;
  compositor = a.compositor;
  shell = a.shell;
  seat = a.seat;
  output = a.output;
  shell_surface = false;
  surface = false;
  window = false;
  egl_display = false;
  egl_surface = false;
  egl_context = false;
  resource_egl_surface = false;
  resource_egl_context = false;
  engine = false;
  presentation = a.presentation;
  kbd_grab_manager = a.kbd_grab_manager;
  vsync_sockets = true;
  key_timer = true;
  event_loop_fd = false;
  xkb_state = false;
}

-- The tests of the constructor up to `SetupEGL`.
abbrev pub connects : ℕ → ℕ → Answers → Bool
connects width height a =
    not (width % 2 ^ 32 == 0 || height % 2 ^ 32 == 0)
    && a.socketpair
    && a.timerfd
    && a.connect
    && a.get_registry

pub before_engine-ready :
    (width height : ℕ) (a : Answers)
    → connects width height a ≡ true
    → egl_ready a.egl a.compositor a.shell ≡ true
    → (before_engine width height a).0 ≡ true
unfolding before_engine new
before_engine-ready width height a h e =
    let (ok, valid, full) = setup_egl_lem a.egl (connected a) in ground arith

construct-connected :
    (width height : ℕ) (a : Answers)
    → connects width height a ≡ true
    → construct width height a ≡ start_engine a (setup_egl a.egl (connected a))
unfolding construct before_engine new
construct-connected width height a h = ground arith

construct_refused :
    (width height : ℕ) (a : Answers)
    → connects width height a ≡ false
    → is_valid (construct width height a) ≡ false
unfolding construct before_engine start_engine new
construct_refused width height a h = ground arith

globals_lem :
    (a : EglAnswers) (compositor shell : Bool)
    → egl_ready a compositor shell ≡ true
    → (compositor && shell && true && true && true && true && true && true && true) ≡ true
globals_lem a compositor shell h = ground arith

true≢false : true ≢ false
true≢false e = cc

valid_split : (p q : Bool) → (p && q) ≡ true → (p ≡ true) × (q ≡ true)
valid_split p q h = ground arith

connected_lem :
    (width height : ℕ) (a : Answers)
    → connects width height a ≡ true
    → (is_valid (construct width height a)
        ≡ (egl_ready a.egl a.compositor a.shell && engine_ready a.engine))
      × (egl_ready a.egl a.compositor a.shell ≡ true
          → engine_ready a.engine ≡ true
          → is_complete (construct width height a) ≡ true)
connected_lem width height a h =
    let (ok, m) = setup_egl a.egl (connected a) in
    let (ok_iff, kept, full) = setup_egl_lem a.egl (connected a) in
    let (valid, done) = start_engine_lem a ok m kept in
    let e = construct-connected width height a h in
    (
      ap is_valid e ∙ (valid ∙ ap (λ b. b && engine_ready a.engine) ok_iff),
      λ egl engine.
          let ok_true : ok ≡ true = ok_iff ∙ egl in
          ap is_complete (e ∙ done ok_true engine)
          ∙ (ap (λ m'. has_all (record m' { event_loop_fd = true; engine = true; valid = true }))
                (full ok_true)
              ∙ globals_lem a.egl a.compositor a.shell egl),
    )

-- The display is valid exactly if the sizes are not 0 and all answers that are needed are given, the
-- compositor and the shell among the globals of the registry. A valid display has its connection,
-- surfaces, window, EGL context and engine.
pub construct_lem :
    (width height : ℕ) (a : Answers)
    → let r = construct width height a in
      (is_valid r ≡ (
        connects width height a && egl_ready a.egl a.compositor a.shell && engine_ready a.engine))
      × (is_valid r ≡ true → is_complete r ≡ true)
construct_lem width height a = elim (Bool-cases (connects width height a)) [
  | inl on ↦
      let (valid, complete) = connected_lem width height a on in
      let all : (connects width height a
            && egl_ready a.egl a.compositor a.shell
            && engine_ready a.engine)
          ≡ (egl_ready a.egl a.compositor a.shell && engine_ready a.engine) =
        ap (λ b. b && egl_ready a.egl a.compositor a.shell && engine_ready a.engine) on in
      (
        valid ∙ sym all,
        λ h. let (egl, engine) = valid_split _ _ (sym valid ∙ h) in complete egl engine,
      )
  | inr off ↦
      let refused = construct_refused width height a off in
      (
        refused
            ∙ sym
                (ap (λ b. b && egl_ready a.egl a.compositor a.shell && engine_ready a.engine) off),
        λ h. absurd (true≢false (sym h ∙ refused)),
      )
]
