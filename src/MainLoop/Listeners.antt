-- ===== src/MainLoop/Listeners.antt =====
-- What the listeners and the tasks of the engine do to the state of the main loop: any sequence of
-- the changes of the other parts, and what all of them keep.
use flutter_embedder_wayland.Base.{ℕ, ◌≡◌, refl, true, Option, some}
use flutter_embedder_wayland.Base.Text.{Bytes}
use flutter_embedder_wayland.EventLoop.Queue.{IsOrdered, push-IsOrdered}
use flutter_embedder_wayland.EventLoop.{EventLoop, post_task}
use flutter_embedder_wayland.Base.Int.{ℤ}
use flutter_embedder_wayland.Vsync.{
  vblank_of_refresh, Vsync, store_baton, presented, presentation_clock_id, frame_done,
}
use flutter_embedder_wayland.Keyboard.XkbCommon.{Xkb}
use flutter_embedder_wayland.Keyboard.{Keyboard}
use flutter_embedder_wayland.Keyboard.Repeat.{Input, step, IsPress, step-IsPress}
use flutter_embedder_wayland.MemoryWatcher.Range.{IsLevel}
use flutter_embedder_wayland.MainLoop.{Display}

module _ {Keymap State T : Type 0} (xkb : Xkb Keymap State) where
  -- What listeners and tasks do: key and pointer events (where `timerfd_settime` succeeds), the vsync
  -- callback and the listeners of the vsync, modes of the output, `wp_presentation`, and posts of
  -- tasks.
  pub data Changed (w : EventLoop T × Display Keymap State)
      : EventLoop T × Display Keymap State → Type 0 where
    unchanged : Changed w w
    then_keyboard :
        {v : EventLoop T × Display Keymap State} (i : Input) (k : Keyboard Keymap State)
        (m : Option Bytes)
        → Changed w v
        → step xkb i v.1.keyboard ≡ some (k, m)
        → Changed w (v.0, record v.1 { keyboard = k })
    then_baton :
        {v : EventLoop T × Display Keymap State} (b : ℕ) (s : Vsync)
        → Changed w v
        → store_baton b v.1.vsync ≡ some s
        → Changed w (v.0, record v.1 { vsync = s })
    then_clock :
        {v : EventLoop T × Display Keymap State} (clk_id : ℕ)
        → Changed w v
        → Changed w (v.0, record v.1 { vsync = presentation_clock_id clk_id v.1.vsync })
    then_presented :
        {v : EventLoop T × Display Keymap State} (tv_sec_hi tv_sec_lo tv_nsec : ℕ)
        → Changed w v
        → Changed w (v.0, record v.1 { vsync = presented tv_sec_hi tv_sec_lo tv_nsec v.1.vsync })
    then_frame :
        {v : EventLoop T × Display Keymap State} (now : ℕ)
        → Changed w v
        → Changed w (v.0, record v.1 { vsync = (frame_done now v.1.vsync).0 })
    -- The period of a mode of the output.
    then_mode :
        {v : EventLoop T × Display Keymap State} (refresh : ℤ) (period : ℕ)
        → Changed w v
        → vblank_of_refresh refresh ≡ some period
        → Changed w (v.0, record v.1 { vsync = record (v.1.vsync) { vblank_time_ns = period } })
    then_global :
        {v : EventLoop T × Display Keymap State}
        → Changed w v
        → Changed w (v.0, record v.1 { presentation = true })
    then_post :
        {v : EventLoop T × Display Keymap State} (t : T) (at : ℕ)
        → Changed w v
        → Changed w (post_task t at v.0, v.1)

  pub record IsSound (w : EventLoop T × Display Keymap State) : Type 0 where
    pub ordered : IsOrdered w.0.task_queue
    pub level : IsLevel w.1.watcher
    pub press : IsPress xkb w.1.keyboard

  pub with_vsync :
      (s : Vsync) (w : EventLoop T × Display Keymap State)
      → IsSound w
      → IsSound (w.0, record w.1 { vsync = s })
  with_vsync s w h = record { ordered = h.ordered; level = h.level; press = h.press }

  pub with_keyboard :
      (k : Keyboard Keymap State) (w : EventLoop T × Display Keymap State)
      → IsPress xkb k
      → IsSound w
      → IsSound (w.0, record w.1 { keyboard = k })
  with_keyboard k w p h = record { ordered = h.ordered; level = h.level; press = p }

  with_post :
      (t : T) (at : ℕ) (w : EventLoop T × Display Keymap State)
      → IsSound w
      → IsSound (post_task t at w.0, w.1)
  unfolding post_task
  with_post t at w h = record {
    ordered = push-IsOrdered _ w.0.task_queue h.ordered;
    level = h.level;
    press = h.press;
  }

  -- What each kind of change keeps, any sequence of changes keeps.
  pub Changed_keeps {κ} :
      (P : EventLoop T × Display Keymap State → Type κ)
      → ((v : EventLoop T × Display Keymap State) (i : Input) (k : Keyboard Keymap State)
            (m : Option Bytes)
          → step xkb i v.1.keyboard ≡ some (k, m)
          → P v
          → P (v.0, record v.1 { keyboard = k }))
      → ((v : EventLoop T × Display Keymap State) (s : Vsync)
          → P v
          → P (v.0, record v.1 { vsync = s }))
      → ((v : EventLoop T × Display Keymap State)
          → P v
          → P (v.0, record v.1 { presentation = true }))
      → ((v : EventLoop T × Display Keymap State) (t : T) (at : ℕ)
          → P v
          → P (post_task t at v.0, v.1))
      → (w v : EventLoop T × Display Keymap State) → Changed w v
      → P w
      → P v
  Changed_keeps P kb vs pr po w v unchanged h = h
  Changed_keeps P kb vs pr po w v (then_keyboard {v = u} i k m c e) h =
      kb u i k m e (Changed_keeps P kb vs pr po w u c h)
  Changed_keeps P kb vs pr po w v (then_baton {v = u} b s c e) h =
      vs u s (Changed_keeps P kb vs pr po w u c h)
  Changed_keeps P kb vs pr po w v (then_clock {v = u} clk_id c) h =
      vs u _ (Changed_keeps P kb vs pr po w u c h)
  Changed_keeps P kb vs pr po w v (then_presented {v = u} hi lo nsec c) h =
      vs u _ (Changed_keeps P kb vs pr po w u c h)
  Changed_keeps P kb vs pr po w v (then_frame {v = u} now c) h =
      vs u _ (Changed_keeps P kb vs pr po w u c h)
  Changed_keeps P kb vs pr po w v (then_mode {v = u} refresh period c e) h =
      vs u _ (Changed_keeps P kb vs pr po w u c h)
  Changed_keeps P kb vs pr po w v (then_global {v = u} c) h =
      pr u (Changed_keeps P kb vs pr po w u c h)
  Changed_keeps P kb vs pr po w v (then_post {v = u} t at c) h =
      po u t at (Changed_keeps P kb vs pr po w u c h)

  pub Changed-IsSound :
      (w v : EventLoop T × Display Keymap State) → Changed w v → IsSound w → IsSound v
  Changed-IsSound =
      Changed_keeps IsSound
        (λ v i k m e h. with_keyboard k v (step-IsPress xkb i v.1.keyboard k m e h.press) h)
        (λ v s h. with_vsync s v h)
        (λ v h. record { ordered = h.ordered; level = h.level; press = h.press })
        (λ v t at h. with_post t at v h)

  -- None of them touches the memory watcher.
  pub Changed-watcher :
      (w v : EventLoop T × Display Keymap State) → Changed w v → v.1.watcher ≡ w.1.watcher
  Changed-watcher w v c =
      Changed_keeps (λ u. u.1.watcher ≡ w.1.watcher) (λ u i k m e h. h) (λ u s h. h) (λ u h. h)
        (λ u t at h. h) w v c refl
