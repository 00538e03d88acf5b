-- ===== src/Engine.antt =====
-- What the engine is given: the arguments of FlutterEngineInitialize that `SetupEngine` of
-- src/wayland_display.cc puts together, its callback that resolves a locale, and
-- `FlutterSendMessage` of src/utils.cc.
pub mod Arguments
mod Examples
use flutter_embedder_wayland.Base.{
  ℕ, ◌%◌, ◌^◌, Bool, true, false, ◌&&◌, not, List, [], ◌∷◌, ◌++◌, map, Option, none, some,
  if◌then◌else◌, length,
}
use flutter_embedder_wayland.Base.Text.{Bytes, codes}
use flutter_embedder_wayland.Locale.{Locale, c_str}
use flutter_embedder_wayland.Files.{icu_data_path, app_aot_elf_name}
use flutter_embedder_wayland.Elf.{Snapshots, no_snapshots, aot_load_elf}

-- `FlutterProjectArgs`, with the C strings up to their NUL.
pub record ProjectArgs : Type 0 where
  pub assets_path : Bytes
  pub icu_data_path : Bytes
  pub command_line_argc : ℕ  -- the bits of an int
  pub command_line_argv : List Bytes
  pub snapshots : Snapshots

-- `args` as it is initialized.
unfoldable pub project_args : Bytes → List Bytes → Bytes → ProjectArgs
project_args bundle_path command_line_args icu = record {
  assets_path = c_str bundle_path;
  icu_data_path = c_str icu;
  command_line_argc = length command_line_args % 2 ^ 32;
  command_line_argv = map c_str command_line_args;
  snapshots = no_snapshots;
}

abbrev pub libapp_aot_path : Bytes → Bytes
libapp_aot_path bundle_path = (bundle_path ++ codes "/") ++ app_aot_elf_name

-- What the arguments depend on: the files, the link to the executable, eventfd(2), the engine's
-- FlutterEngineRunsAOTCompiledDartCode, and the dynamic linker.
pub record Sources : Type 0 where
  -- access(2) with R_OK, and whether std::ifstream can open a file
  pub can_read : Bytes → Bool
  pub opens : Bytes → Bool
  pub readlink : Bytes → ℕ → Option Bytes
  pub pid : ℕ
  pub eventfd : Bool
  pub runs_aot : Bool
  pub dlopen : Bytes → ℕ
  pub dlsym : ℕ → Bytes → ℕ
  pub strerror : ℕ

-- The part of `SetupEngine` behind the task runner: the precompiled application.
load_application : Sources → Bytes → ProjectArgs → Option ProjectArgs
load_application s bundle_path args =
    let r =
      aot_load_elf s.dlopen s.dlsym s.strerror (libapp_aot_path bundle_path) 0 0 args.snapshots in
    if s.runs_aot && s.opens (libapp_aot_path bundle_path)
    then (if r.loaded then some (record args { snapshots = r.out }) else none)
    else some args

-- The arguments of FlutterEngineInitialize; `none` if `SetupEngine` ends before the call.
unfoldable pub engine_args : Sources → Bytes → List Bytes → Option ProjectArgs
unfolding project_args load_application
engine_args s bundle_path command_line_args = elim (icu_data_path s.readlink s.pid s.opens) [
  | [] ↦ none
  | c ∷ icu ↦
      if s.eventfd
      then load_application s bundle_path (project_args bundle_path command_line_args (c ∷ icu))
      else none
]

-- `compute_platform_resolved_locale_callback`: the first of the supported locales; `none` is null.
unfoldable pub resolved_locale : List Locale → Option Locale
resolved_locale [] = none
resolved_locale (fl ∷ rest) = some fl

-- The parts of a `FlutterPlatformMessage`.
pub record PlatformMessage : Type 0 where
  pub channel : Bytes
  pub message : Bytes
  pub message_size : ℕ

-- `FlutterSendMessage`; `accepts` says whether the engine's call returns `kSuccess`. The response
-- handle stays null, so that none is released.
unfoldable pub send_message : (PlatformMessage → Bool) → Bytes → Bytes → ℕ → Bool
send_message accepts channel message message_size =
    accepts (record { channel = channel; message = message; message_size = message_size })
