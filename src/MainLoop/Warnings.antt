-- ===== src/MainLoop/Warnings.antt =====
-- The warnings of low memory over any run of the main loop.
use flutter_embedder_wayland.Base.{
  true, ℕ, ◌+◌, ◌^◌, ◌<◌, ◌≡◌, refl, ◌∙◌, ap, List, [], ◌∷◌, ◌++◌, Option, none, some, subst, All,
  arith,
}
use flutter_embedder_wayland.EventLoop.{EventLoop, process_events}
use flutter_embedder_wayland.EventLoop.Process.{process_events_keeps}
use flutter_embedder_wayland.Vsync.{OnVsync}
use flutter_embedder_wayland.Base.Text.{Bytes}
use flutter_embedder_wayland.Keyboard.XkbCommon.{Xkb}
use flutter_embedder_wayland.MemoryWatcher.{
  warned, silent, refused, Outcome, Watcher, handle_event, cooldown,
}
use flutter_embedder_wayland.MemoryWatcher.Warnings.{
  Event, IsSpaced, latest, IsSpaced-append, latest-append, handle_event-last,
}
use flutter_embedder_wayland.MainLoop.Listeners.{Changed, Changed-watcher}
use flutter_embedder_wayland.MainLoop.Traces.{Contract, is_quiet, sent_messages}
use flutter_embedder_wayland.MainLoop.Traces.Runs.{Keeps, run-Keeps}
use flutter_embedder_wayland.MainLoop.{
  Display, Call, handle_memory, engine_call, RoundInput, run, Moment,
}

-- The times of the warnings that the engine took.
abbrev pub warnings : List Call → List ℕ
warnings [] = []
warnings (handle_memory now warned ∷ cs) = now ∷ warnings cs
warnings (_ ∷ cs) = warnings cs

warnings-append : (xs ys : List Call) → warnings (xs ++ ys) ≡ warnings xs ++ warnings ys
warnings-append [] ys = refl
warnings-append (c ∷ xs) ys = ground (arith, warnings-append xs ys)

warnings-is_quiet : (c : Call) → is_quiet c ≡ true → warnings (c ∷ []) ≡ []
warnings-is_quiet c h = ground arith

warnings-engine_call : (now : ℕ) (o : Option OnVsync) → warnings (engine_call now o) ≡ []
warnings-engine_call now o = ground arith

warnings-sent_messages : (o : Option Bytes) → warnings (sent_messages o) ≡ []
warnings-sent_messages o = ground arith

-- From a watcher to another, by warnings at these times.
record Warns (u : Watcher) (times : List ℕ) (v : Watcher) : Type 0 where
  fits : v.last_warning_sent_ns + cooldown < 2 ^ 64
  spaced : IsSpaced u.last_warning_sent_ns times
  last : v.last_warning_sent_ns ≡ latest u.last_warning_sent_ns times

abbrev Fits : Watcher → Type 0
Fits u = u.last_warning_sent_ns + cooldown < 2 ^ 64

without_warning : (u v : Watcher) (times : List ℕ) → v ≡ u → times ≡ [] → Fits u → Warns u times v
without_warning u v times e f fits = record {
  fits = rw e fits;
  spaced = rw f tt;
  last = rw (f, e) refl;
}

Spaced-append :
    (u v : Watcher) (xs ys : List Call)
    → Warns u (warnings xs) v
    → IsSpaced v.last_warning_sent_ns (warnings ys)
    → IsSpaced u.last_warning_sent_ns (warnings (xs ++ ys))
Spaced-append u v xs ys r k = rw (warnings-append xs ys) (
    IsSpaced-append u.last_warning_sent_ns (warnings xs) (warnings ys) r.spaced
      (subst (λ l. IsSpaced l (warnings ys)) r.last k))

Warns-append :
    (u v w : Watcher) (xs ys : List Call)
    → Warns u (warnings xs) v
    → Warns v (warnings ys) w
    → Warns u (warnings (xs ++ ys)) w
Warns-append u v w xs ys r s = record {
  fits = s.fits;
  spaced = Spaced-append u v xs ys r s.spaced;
  last =
      rw (warnings-append xs ys, latest-append u.last_warning_sent_ns (warnings xs) (warnings ys))
        (s.last ∙ ap (λ l. latest l (warnings ys)) r.last);
}

module _ {Keymap State T : Type 0} (xkb : Xkb Keymap State)
    (on_task_expired : T → EventLoop T × Display Keymap State → EventLoop T × Display Keymap State)
    (dispatch : EventLoop T × Display Keymap State → EventLoop T × Display Keymap State)
    (threads : Moment
      → RoundInput
      → EventLoop T × Display Keymap State
      → EventLoop T × Display Keymap State)
    (tasks : (t : T) (w : EventLoop T × Display Keymap State) → Changed xkb w (on_task_expired t w))
    (listeners : (w : EventLoop T × Display Keymap State) → Changed xkb w (dispatch w))
    (others : (m : Moment) (i : RoundInput) (w : EventLoop T × Display Keymap State)
      → Changed xkb w (threads m i w)) where
  abbrev World : Type 0
  World = EventLoop T × Display Keymap State

  process_events-watcher :
      (now : ℕ) (w : World) → (process_events on_task_expired now w).1.1.watcher ≡ w.1.watcher
  process_events-watcher now w =
      process_events_keeps on_task_expired (λ v. v.1.watcher ≡ w.1.watcher)
        (λ t v e. Changed-watcher xkb v (on_task_expired t v) (tasks t v) ∙ e) now w.0 w.1 refl

  abbrev event_of : RoundInput → Event
  event_of i = record { now_ns = i.memory_now; reads = i.usage_reads; accepts = i.accepts_warning }

  watches :
      (i : RoundInput) (u v : Watcher) (o : Outcome)
      → i.memory_now + cooldown < 2 ^ 64
      → handle_event i.accepts_warning i.memory_now i.usage_reads u ≡ some (o, v)
      → Fits u
      → Warns u (warnings (handle_memory i.memory_now o ∷ [])) v
  watches i u v warned b e f =
      let (took, left) = handle_event-last (event_of i) u v warned f e in
      let (spaced, last) = took refl in
      record { fits = rw last b; spaced = (spaced, tt); last = last }
  watches i u v silent b e f =
      let (took, left) = handle_event-last (event_of i) u v silent f e in
      let last = left (λ e. cc) in record { fits = rw last f; spaced = tt; last = last }
  watches i u v refused b e f =
      let (took, left) = handle_event-last (event_of i) u v refused f e in
      let last = left (λ e. cc) in record { fits = rw last f; spaced = tt; last = last }

  Warns-contract :
      Contract xkb on_task_expired dispatch threads
        (λ i. i.memory_now + cooldown < 2 ^ 64)
        (λ u cs v. Fits u.1.watcher → Warns u.1.watcher (warnings cs) v.1.watcher)
        (λ u cs. Fits u.1.watcher → IsSpaced u.1.watcher.last_warning_sent_ns (warnings cs))
  Warns-contract = record {
    stay = λ w. without_warning _ _ [] refl refl;
    join = λ u v w xs ys r s f.
        Warns-append u.1.watcher v.1.watcher w.1.watcher xs ys (r f) (s (r f).fits);
    halts = λ u v xs r f. (r f).spaced;
    join_halt = λ u v xs ys r s f. Spaced-append u.1.watcher v.1.watcher xs ys (r f) (s (r f).fits);
    quiet = λ c w e. without_warning _ _ _ refl (warnings-is_quiet c e);
    dispatches =
        λ w. without_warning _ _ [] (Changed-watcher xkb w (dispatch w) (listeners w)) refl;
    acts = λ m i w f.
        without_warning _ _ [] (Changed-watcher xkb w (threads m i w) (others m i w)) refl;
    repeats = λ w k m e. without_warning _ _ _ refl (warnings-sent_messages m);
    answers = λ i w b. without_warning _ _ _ refl (warnings-engine_call i.vsync_now _);
    watches = λ i w o w' b e. watches i w.1.watcher w' o b e;
    processes = λ i w f. without_warning _ _ [] (process_events-watcher i.loop_now w) refl;
  }

  -- In a run of the main loop in which the listeners, the tasks of the engine and its threads only make the
  -- changes that `Changed` lists, and which reads the clock for the watcher more than 20 s below
  -- 2 ^ 64: whatever the usage, the warnings that the engine takes are at least 20 s apart, and the
  -- first is at least 20 s after the last one before the run. This holds too if the run ends the program.
  pub run_warnings-IsSpaced :
      (iterations : List (ℕ × List RoundInput)) (w : World) (end : Option World) (cs : List Call)
      → All (λ iteration. All (λ i. i.memory_now + cooldown < 2 ^ 64) iteration.1) iterations
      → w.1.watcher.last_warning_sent_ns + cooldown < 2 ^ 64
      → run xkb on_task_expired dispatch threads iterations w ≡ some (end, cs)
      → IsSpaced w.1.watcher.last_warning_sent_ns (warnings cs)
  run_warnings-IsSpaced iterations w end cs b f e = go end (
      subst (Keeps xkb on_task_expired dispatch threads Warns-contract w) e
        (run-Keeps xkb on_task_expired dispatch threads Warns-contract iterations w b))
    where
      go :
          (end : Option World)
          → Keeps xkb on_task_expired dispatch threads Warns-contract w (some (end, cs))
          → IsSpaced w.1.watcher.last_warning_sent_ns (warnings cs)
      go none k = k f
      go (some v) k = (k f).spaced
