-- ===== src/MainLoop/Traces/Runs.antt =====
-- The rounds, iterations and runs of the main loop keep a contract that each part keeps.
use flutter_embedder_wayland.Base.{ℕ, zero, suc, refl, List, [], ◌∷◌, ◌++◌, Option, none, some, All}
use flutter_embedder_wayland.MainLoop.Traces.{Contract}
use flutter_embedder_wayland.EventLoop.{EventLoop}
use flutter_embedder_wayland.Keyboard.XkbCommon.{Xkb}
use flutter_embedder_wayland.MainLoop.{
  Display, Call, prepare_read, dispatch_pending, flush, RoundInput, RoundEnd, again, leaves,
  returns_false, round, rounds, prepare, iteration, run, Moment,
}
use flutter_embedder_wayland.MainLoop.Traces.Rounds.{RoundKeeps, round-RoundKeeps}

module _ {Keymap State T : Type 0} (xkb : Xkb Keymap State)
    (on_task_expired : T → EventLoop T × Display Keymap State → EventLoop T × Display Keymap State)
    (dispatch : EventLoop T × Display Keymap State → EventLoop T × Display Keymap State)
    (threads : Moment
      → RoundInput
      → EventLoop T × Display Keymap State
      → EventLoop T × Display Keymap State)
    {Fine : RoundInput → Type 0}
    {Rel : EventLoop T × Display Keymap State
      → List Call
      → EventLoop T × Display Keymap State
      → Type 0}
    {Halt : EventLoop T × Display Keymap State → List Call → Type 0}
    (c : Contract xkb on_task_expired dispatch threads Fine Rel Halt) where
  open c use {stay, join, halts, join_halt, quiet, dispatches}

  abbrev World : Type 0
  World = EventLoop T × Display Keymap State

  abbrev pub Keeps : World → Option (Option World × List Call) → Type 0
  Keeps w none = Unit {0}
  Keeps w (some (none, cs)) = Halt w cs
  Keeps w (some (some v, cs)) = Rel w cs v

  after-Keeps :
      (u v : World) (calls : List Call) (o : Option (Option World × List Call))
      → Rel u calls v
      → Keeps v o
      → Keeps u (elim o [ none ↦ none | some (end, more) ↦ some (end, calls ++ more) ])
  after-Keeps u v calls none r k = tt
  after-Keeps u v calls (some (none, more)) r k = join_halt u v calls more r k
  after-Keeps u v calls (some (some w, more)) r k = join u v w calls more r k

  rounds-Keeps :
      (is : List RoundInput) (t : ℕ) (w : World)
      → All Fine is
      → Keeps w (rounds xkb on_task_expired dispatch threads is t w)
  unfolding rounds
  rounds-Keeps [] t w f = tt
  rounds-Keeps (i ∷ is) t w f =
      go (round xkb on_task_expired dispatch threads i t w)
        (round-RoundKeeps xkb on_task_expired dispatch threads c i t w f.0)
        (λ w'. rounds-Keeps is t w' f.1)
    where
      go :
          (o : Option (RoundEnd World × List Call))
          → RoundKeeps xkb on_task_expired dispatch threads c w o
          → ((w' : World) → Keeps w' (rounds xkb on_task_expired dispatch threads is t w'))
          → Keeps w (elim o [
            | none ↦ none
            | some (again w', calls) ↦ elim (rounds xkb on_task_expired dispatch threads is t w') [
              | none ↦ none
              | some (end, more) ↦ some (end, calls ++ more)
            ]
            | some (leaves next w', calls) ↦ some (some w', calls)
            | some (returns_false, calls) ↦ some (none, calls)
          ])
      go none k rest = tt
      go (some (again w', calls)) k rest = after-Keeps w w' calls _ k (rest w')
      go (some (leaves next w', calls)) k rest = k
      go (some (returns_false, calls)) k rest = k

  prepare_keeps :
      (n : ℕ) (w : World)
      → let (w', calls) = prepare xkb on_task_expired dispatch threads n w in Rel w calls w'
  unfolding prepare
  prepare_keeps zero w =
      join w w w (prepare_read ∷ []) (flush ∷ []) (quiet prepare_read w refl) (quiet flush w refl)
  prepare_keeps (suc n) w =
      join w (dispatch w) _ (dispatch_pending ∷ []) _ (dispatches w) (prepare_keeps n (dispatch w))

  iteration-Keeps :
      (n : ℕ) (is : List RoundInput) (w : World)
      → All Fine is
      → Keeps w (iteration xkb on_task_expired dispatch threads n is w)
  unfolding iteration
  iteration-Keeps n is w f =
      let (w', calls) = prepare xkb on_task_expired dispatch threads n w in
      go w' calls (prepare_keeps n w) (rounds xkb on_task_expired dispatch threads is 0 w')
        (rounds-Keeps is 0 w' f)
    where
      go :
          (v : World) (calls : List Call)
          → Rel w calls v
          → (o : Option (Option World × List Call)) → Keeps v o
          → Keeps w (elim o [
            | none ↦ none
            | some (none, more) ↦ some (none, calls ++ more)
            | some (some w'', more) ↦
                some (some (dispatch w''), calls ++ (more ++ dispatch_pending ∷ []))
          ])
      go v calls r none k = tt
      go v calls r (some (none, more)) k = join_halt w v calls more r k
      go v calls r (some (some w'', more)) k =
          join w v (dispatch w'') calls (more ++ dispatch_pending ∷ []) r
            (join v w'' (dispatch w'') more (dispatch_pending ∷ []) k (dispatches w''))

  abbrev pub AllFine : List (ℕ × List RoundInput) → Type 0
  AllFine = All (λ iteration. All Fine iteration.1)

  -- A run keeps the contract.
  pub run-Keeps :
      (iterations : List (ℕ × List RoundInput)) (w : World)
      → AllFine iterations
      → Keeps w (run xkb on_task_expired dispatch threads iterations w)
  unfolding run
  run-Keeps [] w f = stay w
  run-Keeps ((n, is) ∷ rest) w f =
      go (iteration xkb on_task_expired dispatch threads n is w) (iteration-Keeps n is w f.0)
        (λ w'. run-Keeps rest w' f.1)
    where
      go :
          (o : Option (Option World × List Call))
          → Keeps w o
          → ((w' : World) → Keeps w' (run xkb on_task_expired dispatch threads rest w'))
          → Keeps w (elim o [
            | none ↦ none
            | some (none, calls) ↦ some (none, calls)
            | some (some w', calls) ↦ elim (run xkb on_task_expired dispatch threads rest w') [
              | none ↦ none
              | some (end, more) ↦ some (end, calls ++ more)
            ]
          ])
      go none k more = tt
      go (some (none, calls)) k more = k
      go (some (some w', calls)) k more = after-Keeps w w' calls _ k (more w')
