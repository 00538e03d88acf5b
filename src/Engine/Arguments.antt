-- ===== src/Engine/Arguments.antt =====
-- When the engine is initialized, and with what.
use flutter_embedder_wayland.Base.{
  ◌≡◌, ◌≢◌, ◌<◌, ◌^◌, refl, sym, ◌∙◌, ap, Bool, true, false, ◌&&◌, ◌||◌, not, List, [], ◌∷◌, map,
  Option, none, some, arith, ◌==◌, if◌then◌else◌, length, subst,
}
use flutter_embedder_wayland.Base.Text.{Bytes}
use flutter_embedder_wayland.Locale.{c_str}
use flutter_embedder_wayland.Files.{icu_data_path}
use flutter_embedder_wayland.Files.Paths.{icu_data_path_lem}
use flutter_embedder_wayland.Elf.{Snapshots, no_snapshots}
use flutter_embedder_wayland.Elf.Symbols.{symbols_of, has_all, aot_load_elf_lem}
use flutter_embedder_wayland.Engine.{
  ProjectArgs, project_args, libapp_aot_path, Sources, load_application, engine_args,
}

abbrev pub is_empty : Bytes → Bool
is_empty [] = true
is_empty (c ∷ text) = false

not_or : (l a : Bool) → l ≡ true → a ≡ false → (not l || a) ≡ false
not_or l a h k = ground arith

module _ (s : Sources) where
  -- The path of the data of ICU.
  abbrev pub icu_path : Bytes
  icu_path = icu_data_path s.readlink s.pid s.opens

  -- The library of the application that is loaded, where the engine runs precompiled code and the
  -- bundle has one.
  abbrev pub loads : Bytes → Bool
  loads bundle_path = s.runs_aot && s.opens (libapp_aot_path bundle_path)

  abbrev pub complete : Snapshots → Bool
  complete = has_all s.dlopen s.dlsym s.strerror

  abbrev pub application : Bytes → Snapshots
  application bundle_path =
      symbols_of s.dlopen s.dlsym s.strerror (s.dlopen (libapp_aot_path bundle_path))

  abbrev pub application_loads : Bytes → Bool
  application_loads bundle_path =
      not (s.dlopen (libapp_aot_path bundle_path) == 0) && complete (application bundle_path)

  -- What the engine is given.
  pub record Given (bundle_path : Bytes) (command_line_args : List Bytes) (a : ProjectArgs)
      : Type 0 where
    pub assets : a.assets_path ≡ c_str bundle_path
    pub icu_readable : s.opens icu_path ≡ true
    pub icu : a.icu_data_path ≡ c_str icu_path
    pub argv : a.command_line_argv ≡ map c_str command_line_args
    pub argc : a.command_line_argc ≡ length command_line_args
    pub snapshots :
        a.snapshots ≡ (if loads bundle_path then application bundle_path else no_snapshots)

  -- All that is needed before the engine is initialized.
  abbrev pub can_initialize : Bytes → Bool
  can_initialize bundle_path =
      not (is_empty icu_path)
      && s.eventfd
      && (not (loads bundle_path) || application_loads bundle_path)

  abbrev LoadedAs : Bytes → ProjectArgs → Option ProjectArgs → Type 0
  LoadedAs bundle_path args none =
      (loads bundle_path ≡ true) × (application_loads bundle_path ≡ false)
  LoadedAs bundle_path args (some a) =
      ((not (loads bundle_path) || application_loads bundle_path) ≡ true)
      × (a ≡ record args {
        snapshots = if loads bundle_path then application bundle_path else args.snapshots;
      })

  load_application-LoadedAs :
      (bundle_path : Bytes) (args : ProjectArgs)
      → LoadedAs bundle_path args (load_application s bundle_path args)
  unfolding load_application
  load_application-LoadedAs bundle_path args =
      let (loaded, out, error, closed, fd) =
        aot_load_elf_lem s.dlopen s.dlsym s.strerror (libapp_aot_path bundle_path) 0 0
          args.snapshots in
      go (loads bundle_path) (not (s.dlopen (libapp_aot_path bundle_path) == 0))
        (complete (application bundle_path)) _ _ loaded out
    where
      Shape : Bool → Bool → Bool → Option ProjectArgs → Type 0
      Shape l o c none = (l ≡ true) × ((o && c) ≡ false)
      Shape l o c (some a) =
          ((not l || (o && c)) ≡ true)
          × (a ≡ record args { snapshots = if l then application bundle_path else args.snapshots })

      go :
          (l o c loaded : Bool) (out : Snapshots)
          → loaded ≡ (o && c)
          → out
            ≡ (if o then (if c then application bundle_path else no_snapshots) else args.snapshots)
          → Shape l o c (
              if l
              then (if loaded then some (record args { snapshots = out }) else none)
              else some args)
      go false o c loaded out h k = (refl, refl)
      go true true true true out h k = (refl, ap (λ found. record args { snapshots = found }) k)
      go true true false true out h k = absurd (cc)
      go true false c true out h k = absurd (cc)
      go true o c false out h k = (refl, sym h)

  abbrev GivenIf : Bytes → List Bytes → Bool → Option ProjectArgs → Type 0
  GivenIf bundle_path command_line_args can none = can ≡ false
  GivenIf bundle_path command_line_args can (some a) =
      (can ≡ true) × Given bundle_path command_line_args a

  engine_args-GivenIf :
      (bundle_path : Bytes) (command_line_args : List Bytes)
      → length command_line_args < 2 ^ 31
      → GivenIf bundle_path command_line_args
          (can_initialize bundle_path)
          (engine_args s bundle_path command_line_args)
  unfolding engine_args
  engine_args-GivenIf bundle_path command_line_args h = go icu_path refl s.eventfd
    where
      given :
          (icu : Bytes)
          → icu_path ≡ icu
          → icu ≢ []
          → (o : Option ProjectArgs)
          → LoadedAs bundle_path (project_args bundle_path command_line_args icu) o
          → GivenIf bundle_path command_line_args
              (not (loads bundle_path) || application_loads bundle_path)
              o
      given icu e ne none k = not_or (loads bundle_path) (application_loads bundle_path) k.0 k.1
      given icu e ne (some a) k = (
        k.0,
        subst (Given bundle_path command_line_args) (sym k.1) (record {
          assets = unfold project_args in refl;
          icu_readable = (icu_data_path_lem s.readlink s.pid s.opens).0 (λ d. ne (sym e ∙ d));
          icu = unfold project_args in ap c_str (sym e);
          argv = unfold project_args in refl;
          argc = unfold project_args in omega (arith, h);
          snapshots = unfold project_args in refl;
        }),
      )

      go :
          (icu : Bytes)
          → icu_path ≡ icu
          → (eventfd : Bool)
          → GivenIf bundle_path command_line_args
              (not (is_empty icu)
                && eventfd
                && (not (loads bundle_path) || application_loads bundle_path))
              (elim icu [
                | [] ↦ none
                | c ∷ rest ↦
                    if eventfd
                    then load_application s bundle_path
                        (project_args bundle_path command_line_args (c ∷ rest))
                    else none
              ])
      go [] e eventfd = refl
      go (c ∷ rest) e false = refl
      go (c ∷ rest) e true =
          given (c ∷ rest) e (λ d. cc) _ (load_application-LoadedAs bundle_path _)

  abbrev pub is_given : Option ProjectArgs → Bool
  is_given none = false
  is_given (some a) = true

  -- The engine is initialized exactly if the data of ICU was found, the event descriptor was made,
  -- and, where it runs precompiled code and the bundle has a library of the application, the library
  -- has all symbols. It then gets the path of the bundle, a file with the data of ICU that can be
  -- read, all of the fewer than 2 ^ 31 arguments, and the symbols of that library, or null pointers
  -- without one. Texts are given up to their first NUL.
  pub engine_args_lem :
      (bundle_path : Bytes) (command_line_args : List Bytes)
      → length command_line_args < 2 ^ 31
      → (is_given (engine_args s bundle_path command_line_args) ≡ can_initialize bundle_path)
        × ((a : ProjectArgs)
            → engine_args s bundle_path command_line_args ≡ some a
            → Given bundle_path command_line_args a)
  engine_args_lem bundle_path command_line_args h =
      let k = engine_args-GivenIf bundle_path command_line_args h in
      (
        given_iff _ k,
        λ a e.
            let g : GivenIf bundle_path command_line_args (can_initialize bundle_path) (some a) =
              subst (GivenIf bundle_path command_line_args (can_initialize bundle_path)) e k in
            g.1,
      )
    where
      given_iff :
          (o : Option ProjectArgs)
          → GivenIf bundle_path command_line_args (can_initialize bundle_path) o
          → is_given o ≡ can_initialize bundle_path
      given_iff none k = sym k
      given_iff (some a) k = sym k.0
