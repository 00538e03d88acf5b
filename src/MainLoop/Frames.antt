-- ===== src/MainLoop/Frames.antt =====
-- The frames that the engine is told of over any run of the main loop.
use flutter_embedder_wayland.Base.{
  ℕ, ◌+◌, ◌*◌, ◌^◌, ◌≤◌, ◌<◌, ◌≡◌, ◌≢◌, refl, Bool, true, List, [], ◌∷◌, ◌++◌, Option, none, some,
  subst, All, All-append, arith,
}
use flutter_embedder_wayland.Base.Int.{ℤ, pos, negsuc}
use flutter_embedder_wayland.Base.Text.{Bytes}
use flutter_embedder_wayland.EventLoop.{EventLoop}
use flutter_embedder_wayland.EventLoop.Process.{process_events_keeps}
use flutter_embedder_wayland.Vsync.{
  Vsync, OnVsync, vsync_handler, store_baton, presented, presentation_clock_id, frame_done,
  vblank_of_refresh,
}
use flutter_embedder_wayland.Vsync.Timing.{frame_times_ahead, vblank_of_refresh_bounds}
use flutter_embedder_wayland.Keyboard.XkbCommon.{Xkb}
use flutter_embedder_wayland.MainLoop.Listeners.{
  Changed, unchanged, then_keyboard, then_baton, then_clock, then_presented, then_frame, then_mode,
  then_global, then_post,
}
use flutter_embedder_wayland.MainLoop.Traces.{Contract, is_quiet, sent_messages}
use flutter_embedder_wayland.MainLoop.Traces.Runs.{Keeps, run-Keeps}
use flutter_embedder_wayland.MainLoop.{
  Display, Call, on_vsync, engine_call, RoundInput, run, Moment,
}

-- The periods of the refresh rates that `int32_t` can hold.
abbrev pub shortest : ℕ
shortest = 465

abbrev pub longest : ℕ
longest = 1_000_000_000_000

abbrev pub IsPeriod : ℕ → Type 0
IsPeriod p = (shortest ≤ p) × (p ≤ longest)

-- A frame that is announced at `now`: it has a baton, it starts after `now` and at most `longest`
-- later, and its target is `shortest` to `longest` after its start.
abbrev pub IsFrame : ℕ → OnVsync → Type 0
IsFrame now c =
    (c.baton ≢ 0)
    × (now < c.frame_start_ns)
    × (c.frame_start_ns ≤ now + longest)
    × (c.frame_start_ns + shortest ≤ c.frame_target_ns)
    × (c.frame_target_ns ≤ c.frame_start_ns + longest)

abbrev pub frames : List Call → List (ℕ × OnVsync)
frames [] = []
frames (on_vsync now c ∷ cs) = (now, c) ∷ frames cs
frames (_ ∷ cs) = frames cs

abbrev pub AreFrames : List Call → Type 0
AreFrames cs = All (λ f. IsFrame f.0 f.1) (frames cs)

frames-append : (xs ys : List Call) → frames (xs ++ ys) ≡ frames xs ++ frames ys
frames-append [] ys = refl
frames-append (c ∷ xs) ys = ground (arith, frames-append xs ys)

AreFrames-append : (xs ys : List Call) → AreFrames xs → AreFrames ys → AreFrames (xs ++ ys)
AreFrames-append xs ys h k = rw (frames-append xs ys) (All-append _ (frames xs) (frames ys) h k)

AreFrames-is_quiet : (c : Call) → is_quiet c ≡ true → AreFrames (c ∷ [])
AreFrames-is_quiet c h = ground arith

AreFrames-sent_messages : (o : Option Bytes) → AreFrames (sent_messages o)
AreFrames-sent_messages o = ground arith

AreFrames-vsync_handler :
    (accepts : OnVsync → Bool) (now : ℕ) (v : Vsync)
    → now + 2 * longest < 2 ^ 64
    → IsPeriod v.vblank_time_ns
    → let (result, (v', call)) = vsync_handler accepts now v in
      IsPeriod v'.vblank_time_ns × AreFrames (engine_call now call)
unfolding vsync_handler
AreFrames-vsync_handler accepts now v b p =
    let ahead = frame_times_ahead v now (omega arith) (omega arith) in ground arith

-- A refresh rate that is positive and in `int32_t`.
abbrev pub IsRate : ℤ → Type 0
IsRate (pos n) = (0 < n) × (n < 2 ^ 31)
IsRate (negsuc n) = ⊥

vblank_of_refresh-IsPeriod :
    (refresh : ℤ) (period : ℕ)
    → IsRate refresh
    → vblank_of_refresh refresh ≡ some period
    → IsPeriod period
vblank_of_refresh-IsPeriod (negsuc n) period h e = absurd h
vblank_of_refresh-IsPeriod (pos n) period h e =
    let (p, f, lo, hi) = vblank_of_refresh_bounds n h.0 h.1 in ground arith

module _ {Keymap State T : Type 0} (xkb : Xkb Keymap State) where
  -- The modes among the changes have such rates.
  abbrev pub RatesFit : {w v : EventLoop T × Display Keymap State} → Changed xkb w v → Type 0
  RatesFit unchanged = Unit {0}
  RatesFit (then_keyboard i k m c e) = RatesFit c
  RatesFit (then_baton b s c e) = RatesFit c
  RatesFit (then_clock clk_id c) = RatesFit c
  RatesFit (then_presented hi lo nsec c) = RatesFit c
  RatesFit (then_frame now c) = RatesFit c
  RatesFit (then_mode refresh period c e) = IsRate refresh × RatesFit c
  RatesFit (then_global c) = RatesFit c
  RatesFit (then_post t at c) = RatesFit c

  abbrev pub HasPeriod : EventLoop T × Display Keymap State → Type 0
  HasPeriod w = IsPeriod w.1.vsync.vblank_time_ns

  pub Changed-HasPeriod :
      (w v : EventLoop T × Display Keymap State) (c : Changed xkb w v)
      → RatesFit c
      → HasPeriod w
      → HasPeriod v
  unfolding store_baton presented presentation_clock_id frame_done
  Changed-HasPeriod w v unchanged f h = h
  Changed-HasPeriod w v (then_keyboard {v = u} i k m c e) f h = Changed-HasPeriod w u c f h
  Changed-HasPeriod w v (then_baton {v = u} b s c e) f h =
      let k = Changed-HasPeriod w u c f h in ground arith
  Changed-HasPeriod w v (then_clock {v = u} clk_id c) f h = Changed-HasPeriod w u c f h
  Changed-HasPeriod w v (then_presented {v = u} hi lo nsec c) f h = Changed-HasPeriod w u c f h
  Changed-HasPeriod w v (then_frame {v = u} now c) f h =
      let k = Changed-HasPeriod w u c f h in ground arith
  Changed-HasPeriod w v (then_mode {v = u} refresh period c e) f h =
      vblank_of_refresh-IsPeriod refresh period f.0 e
  Changed-HasPeriod w v (then_global {v = u} c) f h = Changed-HasPeriod w u c f h
  Changed-HasPeriod w v (then_post {v = u} t at c) f h = Changed-HasPeriod w u c f h

module _ {Keymap State T : Type 0} (xkb : Xkb Keymap State)
    (on_task_expired : T → EventLoop T × Display Keymap State → EventLoop T × Display Keymap State)
    (dispatch : EventLoop T × Display Keymap State → EventLoop T × Display Keymap State)
    (threads : Moment
      → RoundInput
      → EventLoop T × Display Keymap State
      → EventLoop T × Display Keymap State)
    (tasks : (t : T) (w : EventLoop T × Display Keymap State) → Changed xkb w (on_task_expired t w))
    (listeners : (w : EventLoop T × Display Keymap State) → Changed xkb w (dispatch w))
    (others : (m : Moment) (i : RoundInput) (w : EventLoop T × Display Keymap State)
      → Changed xkb w (threads m i w))
    (tasks_fit : (t : T) (w : EventLoop T × Display Keymap State) → RatesFit xkb (tasks t w))
    (listeners_fit : (w : EventLoop T × Display Keymap State) → RatesFit xkb (listeners w))
    (others_fit : (m : Moment) (i : RoundInput) (w : EventLoop T × Display Keymap State)
      → RatesFit xkb (others m i w)) where
  abbrev World : Type 0
  World = EventLoop T × Display Keymap State

  AreFrames-contract :
      Contract xkb on_task_expired dispatch threads
        (λ i. i.vsync_now + 2 * longest < 2 ^ 64)
        (λ u cs v. HasPeriod xkb u → HasPeriod xkb v × AreFrames cs)
        (λ u cs. HasPeriod xkb u → AreFrames cs)
  AreFrames-contract = record {
    stay = λ w h. (h, tt);
    join = λ u v w xs ys r s h. ((s (r h).0).0, AreFrames-append xs ys (r h).1 (s (r h).0).1);
    halts = λ u v xs r h. (r h).1;
    join_halt = λ u v xs ys r s h. AreFrames-append xs ys (r h).1 (s (r h).0);
    quiet = λ c w e h. (h, AreFrames-is_quiet c e);
    dispatches =
        λ w h. (Changed-HasPeriod xkb w (dispatch w) (listeners w) (listeners_fit w) h, tt);
    acts = λ m i w b h.
        (Changed-HasPeriod xkb w (threads m i w) (others m i w) (others_fit m i w) h, tt);
    repeats = λ w k m e h. (h, AreFrames-sent_messages m);
    answers = λ i w b h. AreFrames-vsync_handler i.accepts_vsync i.vsync_now w.1.vsync b h;
    watches = λ i w o w' b e h. (h, tt);
    processes = λ i w b h. (
      process_events_keeps on_task_expired (HasPeriod xkb)
          (λ t v. Changed-HasPeriod xkb v (on_task_expired t v) (tasks t v) (tasks_fit t v))
          i.loop_now w.0 w.1 h,
      tt,
    );
  }

  -- In a run of the main loop in which the listeners, the tasks of the engine and its threads only make the changes
  -- that `Changed` lists, with positive refresh rates in `int32_t`, from a state with a period of such a
  -- rate, and with a clock more than 2000 s below 2 ^ 64 where `vSyncHandler` reads it: each frame that the engine is told of has a baton, starts
  -- after the time that was read and at most 1000 s later, and its target is at least 465 ns and at
  -- most 1000 s after its start. This holds too if the run ends the program.
  pub run-AreFrames :
      (iterations : List (ℕ × List RoundInput)) (w : World) (end : Option World) (cs : List Call)
      → All (λ iteration. All (λ i. i.vsync_now + 2 * longest < 2 ^ 64) iteration.1) iterations
      → IsPeriod w.1.vsync.vblank_time_ns
      → run xkb on_task_expired dispatch threads iterations w ≡ some (end, cs)
      → AreFrames cs
  run-AreFrames iterations w end cs b p e = go end (
      subst (Keeps xkb on_task_expired dispatch threads AreFrames-contract w) e
        (run-Keeps xkb on_task_expired dispatch threads AreFrames-contract iterations w b))
    where
      go :
          (end : Option World)
          → Keeps xkb on_task_expired dispatch threads AreFrames-contract w (some (end, cs))
          → AreFrames cs
      go none k = k p
      go (some v) k = (k p).1
