-- ===== src/Entry/Calls.antt =====
-- How often the calls of the program print the usage and begin `Run`, and what they initialize the
-- engine with.
use flutter_embedder_wayland.Base.{
  ℕ, suc, ◌+◌, ◌≡◌, refl, Bool, true, false, List, [], ◌∷◌, ◌++◌, map, arith, some, ◌∙◌,
}
use flutter_embedder_wayland.Base.Text.{Bytes}
use flutter_embedder_wayland.Lifecycle.{Resource, before_engine}
use flutter_embedder_wayland.Engine.{ProjectArgs, engine_args}
use flutter_embedder_wayland.MainLoop.{Call}
use flutter_embedder_wayland.Entry.{
  Outside, answers_of, initialization, preamble, initialize, released, LaunchCall, print_usage,
  flutter_arg, add_frame_listener, loop_call,
}

-- How often the usage is printed, and how often `Run` begins.
abbrev pub usages : List LaunchCall → ℕ
usages [] = 0
usages (print_usage ∷ cs) = suc (usages cs)
usages (_ ∷ cs) = usages cs

abbrev pub starts : List LaunchCall → ℕ
starts [] = 0
starts (add_frame_listener ∷ cs) = suc (starts cs)
starts (_ ∷ cs) = starts cs

abbrev pub count : Bool → ℕ
count true = 1
count false = 0

pub usages-append : (xs ys : List LaunchCall) → usages (xs ++ ys) ≡ usages xs + usages ys
usages-append [] ys = omega arith
usages-append (c ∷ xs) ys = ground (arith, usages-append xs ys)

pub starts-append : (xs ys : List LaunchCall) → starts (xs ++ ys) ≡ starts xs + starts ys
starts-append [] ys = omega arith
starts-append (c ∷ xs) ys = ground (arith, starts-append xs ys)

-- Calls without a usage and without a start.
abbrev pub IsPlain : List LaunchCall → Type 0
IsPlain cs = (usages cs ≡ 0) × (starts cs ≡ 0)

pub map-flutter_arg-IsPlain : (args : List Bytes) → IsPlain (map flutter_arg args)
map-flutter_arg-IsPlain [] = (refl, refl)
map-flutter_arg-IsPlain (a ∷ args) = map-flutter_arg-IsPlain args

pub map-released-IsPlain : (rs : List Resource) → IsPlain (map released rs)
map-released-IsPlain [] = (refl, refl)
map-released-IsPlain (r ∷ rs) = map-released-IsPlain rs

pub map-loop_call-IsPlain : (cs : List Call) → IsPlain (map loop_call cs)
map-loop_call-IsPlain [] = (refl, refl)
map-loop_call-IsPlain (c ∷ cs) = map-loop_call-IsPlain cs

-- The arguments of the calls of `FlutterEngineInitialize`.
abbrev pub initializations : List LaunchCall → List ProjectArgs
initializations [] = []
initializations (initialize a ∷ cs) = a ∷ initializations cs
initializations (_ ∷ cs) = initializations cs

pub initializations-append :
    (xs ys : List LaunchCall)
    → initializations (xs ++ ys) ≡ initializations xs ++ initializations ys
initializations-append [] ys = refl
initializations-append (c ∷ xs) ys = ground (arith, initializations-append xs ys)

initializations-map-flutter_arg : (args : List Bytes) → initializations (map flutter_arg args) ≡ []
initializations-map-flutter_arg [] = refl
initializations-map-flutter_arg (a ∷ args) = initializations-map-flutter_arg args

pub initializations-map-released : (rs : List Resource) → initializations (map released rs) ≡ []
initializations-map-released [] = refl
initializations-map-released (r ∷ rs) = initializations-map-released rs

pub initializations-map-loop_call : (cs : List Call) → initializations (map loop_call cs) ≡ []
initializations-map-loop_call [] = refl
initializations-map-loop_call (c ∷ cs) = initializations-map-loop_call cs

module _ {Double : Type 0} (o : Outside Double) where
  pub preamble-IsPlain : (path : Bytes) (args : List Bytes) → IsPlain (preamble o path args)
  unfolding preamble
  preamble-IsPlain path args = ground (
    arith,
    map-flutter_arg-IsPlain args,
    usages-append (map flutter_arg args) (initialization o path args),
    starts-append (map flutter_arg args) (initialization o path args),
  )

  pub initializations-preamble :
      (path : Bytes) (args : List Bytes) (a : ProjectArgs)
      → (before_engine 1920 1080 (answers_of o path)).0 ≡ true
      → engine_args o.sources path args ≡ some a
      → initializations (preamble o path args) ≡ a ∷ []
  unfolding preamble
  initializations-preamble path args a h e =
      initializations-append (map flutter_arg args) (initialization o path args)
      ∙ rw (initializations-map-flutter_arg args, h, e) refl
