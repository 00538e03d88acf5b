-- ===== src/Window/Sizes.antt =====
-- What the engine and the compositor are told about the size of the window, over any sequence of
-- events.
use flutter_embedder_wayland.Base.{
  ℕ, suc, ◌/◌, ◌≡◌, refl, true, false, List, [], ◌∷◌, ◌++◌, Option, none, some, arith, Option-cases,
  inl, inr,
}
use flutter_embedder_wayland.Base.Int.{ℤ, to_u64}
use flutter_embedder_wayland.Base.Chain.{◌>>=◌}
use flutter_embedder_wayland.Vsync.{vblank_of_refresh}
use flutter_embedder_wayland.Window.{
  Window, WindowCall, resize, send_metrics, window_metrics, shell_configure, output_mode,
  engine_started, output_geometry, pointer_motion,
}

pub data Input : Type 0 where
  configure : ℤ → ℤ → Input
  mode : ℤ → ℤ → ℤ → Input
  geometry : ℤ → ℤ → Input
  motion : ℤ → ℤ → Input
  started : Input

-- The size that the compositor was told last, and the one that the engine was told last.
abbrev pub last_resize : {R : Type 0} → Option (ℤ × ℤ) → List (WindowCall R) → Option (ℤ × ℤ)
last_resize seen [] = seen
last_resize seen (resize w h ∷ cs) = last_resize (some (w, h)) cs
last_resize seen (_ ∷ cs) = last_resize seen cs

abbrev pub last_metrics : {R : Type 0} → Option (ℕ × ℕ) → List (WindowCall R) → Option (ℕ × ℕ)
last_metrics seen [] = seen
last_metrics seen (send_metrics m ∷ cs) = last_metrics (some (m.width, m.height)) cs
last_metrics seen (_ ∷ cs) = last_metrics seen cs

-- A size that was told is the one of the window.
abbrev pub Agrees : {A : Type 0} → Option A → A → Type 0
Agrees none current = Unit {0}
Agrees (some told) current = told ≡ current

-- Mode events of the output, with rates that are positive.
abbrev pub modes : List (ℤ × ℤ × ℕ) → List Input
modes [] = []
modes ((width, height, refresh) ∷ ms) = mode width height (ℤ.pos (suc refresh)) ∷ modes ms

module _ {Ratio : Type 0} (one env_ratio : Ratio) where
  unfoldable pub step : Input → Window → Option (Window × List (WindowCall Ratio))
  step (configure width height) w = some (shell_configure one env_ratio width height w)
  step (mode width height refresh) w = output_mode one env_ratio width height refresh w
  step (geometry width height) w = some (output_geometry width height w, [])
  step (motion x y) w = some (pointer_motion x y w, [])
  step started w = some (engine_started one env_ratio w)

  unfoldable pub run : List Input → Window → Option (Window × List (WindowCall Ratio))
  run [] w = some (w, [])
  run (i ∷ is) w = do (w', calls) ← step i w; (w'', more) ← run is w'; some (w'', calls ++ more)

  abbrev Told : Option (ℤ × ℤ) → Option (ℕ × ℕ) → Window → Type 0
  Told resized sent w =
      Agrees resized (w.screen_width, w.screen_height)
      × Agrees sent (to_u64 w.screen_width, to_u64 w.screen_height)

  step-Told :
      (i : Input) (w w' : Window) (calls : List (WindowCall Ratio)) (resized : Option (ℤ × ℤ))
      (sent : Option (ℕ × ℕ))
      → step i w ≡ some (w', calls)
      → Told resized sent w
      → Told (last_resize resized calls) (last_metrics sent calls) w'
  unfolding step shell_configure output_mode engine_started output_geometry pointer_motion
      window_metrics
  step-Told (configure width height) w w' calls resized sent h t = ground arith
  step-Told (mode width height refresh) w w' calls resized sent h t = ground arith
  step-Told (geometry width height) w w' calls resized sent h t = ground arith
  step-Told (motion x y) w w' calls resized sent h t = ground arith
  step-Told started w w' calls resized sent h t = ground arith

  last_resize-append :
      (seen : Option (ℤ × ℤ)) (xs ys : List (WindowCall Ratio))
      → last_resize seen (xs ++ ys) ≡ last_resize (last_resize seen xs) ys
  last_resize-append seen [] ys = refl
  last_resize-append seen (resize w h ∷ xs) ys = last_resize-append (some (w, h)) xs ys
  last_resize-append seen (send_metrics m ∷ xs) ys = last_resize-append seen xs ys

  last_metrics-append :
      (seen : Option (ℕ × ℕ)) (xs ys : List (WindowCall Ratio))
      → last_metrics seen (xs ++ ys) ≡ last_metrics (last_metrics seen xs) ys
  last_metrics-append seen [] ys = refl
  last_metrics-append seen (resize w h ∷ xs) ys = last_metrics-append seen xs ys
  last_metrics-append seen (send_metrics m ∷ xs) ys =
      last_metrics-append (some (m.width, m.height)) xs ys

  run-Told :
      (is : List Input) (w w' : Window) (calls : List (WindowCall Ratio)) (resized : Option (ℤ × ℤ))
      (sent : Option (ℕ × ℕ))
      → run is w ≡ some (w', calls)
      → Told resized sent w
      → Told (last_resize resized calls) (last_metrics sent calls) w'
  unfolding run
  run-Told [] w w' calls resized sent h t = ground arith
  run-Told (i ∷ is) w w' calls resized sent h t = elim (Option-cases (step i w)) [
    | inl e ↦ absurd (ground arith)
    | inr ((w₁, xs), e) ↦ elim (Option-cases (run is w₁)) [
      | inl f ↦ absurd (ground arith)
      | inr ((w₂, ys), f) ↦
          let told = step-Told i w w₁ xs resized sent e t in
          let later = run-Told is w₁ w₂ ys (last_resize resized xs) (last_metrics sent xs) f told in
          let all_calls : calls ≡ xs ++ ys = ground arith in
          let last : w' ≡ w₂ = ground arith in
          rw (last, all_calls, last_resize-append resized xs ys, last_metrics-append sent xs ys)
            later
    ]
  ]

  -- Over any sequence of events and the start of the engine, with no refresh rate of 0: if the EGL
  -- window was ever resized, its last size is the one that the display keeps, and if the engine was
  -- ever sent metrics, the last ones tell that size too.
  pub last_sizes_agree :
      (is : List Input) (w w' : Window) (calls : List (WindowCall Ratio))
      → run is w ≡ some (w', calls)
      → Agrees (last_resize none calls) (w'.screen_width, w'.screen_height)
        × Agrees (last_metrics none calls) (to_u64 w'.screen_width, to_u64 w'.screen_height)
  last_sizes_agree is w w' calls h = run-Told is w w' calls none none h (tt, tt)

  -- The start of the engine behind mode events, with the mark that one of them was skipped.
  started_after :
      (ms : List (ℤ × ℤ × ℕ)) (w : Window)
      → w.has_engine ≡ false
      → w.metrics_skipped ≡ true
      → (w' : Window) × (run (modes ms ++ started ∷ []) w
          ≡ some (w', send_metrics (window_metrics one env_ratio w) ∷ []))
        × (w'.screen_width ≡ w.screen_width)
        × (w'.screen_height ≡ w.screen_height)
  unfolding run step output_mode vblank_of_refresh engine_started window_metrics
  started_after [] w h k = (record w { has_engine = true }, ground arith, refl, refl)
  started_after ((width, height, refresh) ∷ ms) w h k =
      let period = 1_000_000_000_000 / suc refresh in
      let w₁ : Window = record w {
        vsync = record (w.vsync) { vblank_time_ns = period };
        metrics_skipped = true;
      } in
      let (w', e, x, y) = started_after ms w₁ h refl in (w', ground arith, x, y)

  -- Whatever modes with positive rates the output announces before the engine runs, one or more: at the start the
  -- engine is sent one event of metrics, and these and the display keep the size from before the
  -- modes.
  pub modes_before_start :
      (m : ℤ × ℤ × ℕ) (ms : List (ℤ × ℤ × ℕ)) (w : Window)
      → w.has_engine ≡ false
      → (w' : Window) × (run (modes (m ∷ ms) ++ started ∷ []) w
          ≡ some (w', send_metrics (window_metrics one env_ratio w) ∷ []))
        × (w'.screen_width ≡ w.screen_width)
        × (w'.screen_height ≡ w.screen_height)
  unfolding run step output_mode vblank_of_refresh window_metrics
  modes_before_start (width, height, refresh) ms w h =
      let period = 1_000_000_000_000 / suc refresh in
      let w₁ : Window = record w {
        vsync = record (w.vsync) { vblank_time_ns = period };
        metrics_skipped = true;
      } in
      let (w', e, x, y) = started_after ms w₁ h refl in (w', ground arith, x, y)
