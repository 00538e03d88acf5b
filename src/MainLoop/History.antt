-- ===== src/MainLoop/History.antt =====
-- A run of the main loop as a sequence of what its main thread does and of what the threads of the
-- engine do meanwhile: what is true of each of these actions adds up over a run.
pub mod Batons
pub mod Tasks
pub mod Times
use flutter_embedder_wayland.Base.{
  ℕ, ◌≡◌, refl, Bool, true, List, [], ◌∷◌, ◌++◌, Option, none, some, subst, All, inl, inr, ◌⊎◌,
}
use flutter_embedder_wayland.Base.Text.{Bytes}
use flutter_embedder_wayland.EventLoop.{EventLoop, process_events}
use flutter_embedder_wayland.Vsync.{OnVsync, vsync_handler}
use flutter_embedder_wayland.Keyboard.XkbCommon.{Xkb}
use flutter_embedder_wayland.Keyboard.{Keyboard, on_timer}
use flutter_embedder_wayland.MemoryWatcher.{Watcher, Read, Outcome, handle_event}
use flutter_embedder_wayland.MainLoop.Traces.{Contract, is_quiet, sent_messages}
use flutter_embedder_wayland.MainLoop.Traces.Runs.{Keeps, run-Keeps}
use flutter_embedder_wayland.MainLoop.{
  Display, Call, dispatch_pending, handle_memory, process, engine_call, RoundInput, run, Moment,
}

-- The state that a run ends in is the last one of its history; a run that ends the program has a
-- last state too.
abbrev pub EndsAt : {W : Type 0} → Option W → W → Type 0
EndsAt none v = Unit {0}
EndsAt (some w) v = v ≡ w

abbrev pub IsOneOf : RoundInput → List RoundInput → Type 0
IsOneOf i [] = ⊥
IsOneOf i (j ∷ is) = (i ≡ j) ⊎ IsOneOf i is

-- A round of one of the iterations.
abbrev pub IsRoundOf : List (ℕ × List RoundInput) → RoundInput → Type 0
IsRoundOf [] i = ⊥
IsRoundOf ((n, is) ∷ rest) i = IsOneOf i is ⊎ IsRoundOf rest i

All-weaken :
    {A : Type 0} {P Q : A → Type 0} → ((a : A) → P a → Q a) → (xs : List A) → All P xs → All Q xs
All-weaken f [] h = tt
All-weaken f (x ∷ xs) h = (f x h.0, All-weaken f xs h.1)

All-IsOneOf : (is : List RoundInput) → All (λ i. IsOneOf i is) is
All-IsOneOf [] = tt
All-IsOneOf (i ∷ is) = (inl refl, All-weaken (λ j h. inr h) is (All-IsOneOf is))

All-IsRoundOf :
    (its : List (ℕ × List RoundInput))
    → All (λ (p : ℕ × List RoundInput). All (IsRoundOf its) p.1) its
All-IsRoundOf [] = tt
All-IsRoundOf ((n, is) ∷ rest) = (
  All-weaken (λ i h. inl h) is (All-IsOneOf is),
  All-weaken (λ p. All-weaken (λ i h. inr h) p.1) rest (All-IsRoundOf rest),
)

module _ {Keymap State T : Type 0} (xkb : Xkb Keymap State)
    (on_task_expired : T → EventLoop T × Display Keymap State → EventLoop T × Display Keymap State)
    (dispatch : EventLoop T × Display Keymap State → EventLoop T × Display Keymap State)
    (threads : Moment
      → RoundInput
      → EventLoop T × Display Keymap State
      → EventLoop T × Display Keymap State) where
  abbrev World : Type 0
  World = EventLoop T × Display Keymap State

  -- The actions of the main thread in `Run`, with the calls that they make, and those of the threads
  -- of the engine between them. What depends on a clock or an answer has them from a round of which
  -- `Fine` is known.
  pub data History (Fine : RoundInput → Type 0) : World → List Call → World → Type 0 where
    nothing : (w : World) → History Fine w [] w
    in_turn :
        {u v w : World} {xs ys : List Call}
        → History Fine u xs v
        → History Fine v ys w
        → History Fine u (xs ++ ys) w
    calls_only : (c : Call) (w : World) → is_quiet c ≡ true → History Fine w (c ∷ []) w
    dispatches : (w : World) → History Fine w (dispatch_pending ∷ []) (dispatch w)
    repeats_key :
        (w : World) (k : Keyboard Keymap State) (m : Option Bytes)
        → on_timer xkb w.1.keyboard ≡ some (k, m)
        → History Fine w (sent_messages m) (w.0, record w.1 { keyboard = k })
    threads_act :
        (m : Moment) (i : RoundInput) (w : World) → Fine i → History Fine w [] (threads m i w)
    answers_vsync :
        (i : RoundInput) (w : World)
        → Fine i
        → History Fine w
            (engine_call i.vsync_now (vsync_handler i.accepts_vsync i.vsync_now w.1.vsync).1.1)
            (w.0, record w.1 { vsync = (vsync_handler i.accepts_vsync i.vsync_now w.1.vsync).1.0 })
    watches_memory :
        (i : RoundInput) (w : World) (o : Outcome) (w' : Watcher)
        → Fine i
        → handle_event i.accepts_warning i.memory_now i.usage_reads w.1.watcher ≡ some (o, w')
        → History Fine w (handle_memory i.memory_now o ∷ []) (w.0, record w.1 { watcher = w' })
    processes_tasks :
        (i : RoundInput) (w : World)
        → Fine i
        → History Fine w (process ∷ []) (process_events on_task_expired i.loop_now w).1

  History-contract :
      (Fine : RoundInput → Type 0)
      → Contract xkb on_task_expired dispatch threads Fine
          (History Fine)
          (λ u cs. (v : World) × History Fine u cs v)
  History-contract Fine = record {
    stay = nothing;
    join = λ u v w xs ys h k. in_turn h k;
    halts = λ u v xs h. (v, h);
    join_halt = λ u v xs ys h k. (k.0, in_turn h k.1);
    quiet = calls_only;
    dispatches = dispatches;
    acts = threads_act;
    repeats = repeats_key;
    answers = answers_vsync;
    watches = watches_memory;
    processes = processes_tasks;
  }

  -- Every run has a history, with its calls, in which each clock and each answer is from one of the
  -- rounds of the run.
  pub run-History :
      (iterations : List (ℕ × List RoundInput)) (w : World) (end : Option World) (cs : List Call)
      → run xkb on_task_expired dispatch threads iterations w ≡ some (end, cs)
      → (v : World) × History (IsRoundOf iterations) w cs v × EndsAt end v
  run-History iterations w end cs e = go end (
      subst (Keeps xkb on_task_expired dispatch threads contract w) e (
        run-Keeps xkb on_task_expired dispatch threads contract iterations w
          (All-IsRoundOf iterations)))
    where
      contract :
          Contract xkb on_task_expired dispatch threads
            (IsRoundOf iterations)
            (History (IsRoundOf iterations))
            (λ u cs. (v : World) × History (IsRoundOf iterations) u cs v)
      contract = History-contract (IsRoundOf iterations)

      go :
          (end : Option World)
          → Keeps xkb on_task_expired dispatch threads contract w (some (end, cs))
          → (v : World) × History (IsRoundOf iterations) w cs v × EndsAt end v
      go none (v, h) = (v, h, tt)
      go (some v) h = (v, h, refl)
