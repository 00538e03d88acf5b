-- ===== src/Files.antt =====
-- The paths of src/utils.cc: the executable, the data of ICU and the application bundle. The kernel
-- and the environment are arguments: readlink(2) for a buffer size, whether a file can be read, and
-- getenv(3).
pub mod Paths
mod Examples
use flutter_embedder_wayland.Base.{
  ℕ, Bool, true, false, ◌||◌, List, [], ◌∷◌, ◌++◌, Option, none, some, if◌then◌else◌,
}
use flutter_embedder_wayland.Base.Text.{Bytes, codes, to_string}
use flutter_embedder_wayland.Locale.{split_last}

-- `getEnv` for a `std::string`; a null pointer is no name.
unfoldable pub get_env_string : (Bytes → Option Bytes) → Option Bytes → Bytes → Bytes
get_env_string getenv none default_value = default_value
get_env_string getenv (some variable) default_value = elim (getenv variable) [
  | none ↦ default_value
  | some value ↦ value
]

-- `getEnv` for a `double`, with atof(3).
unfoldable pub get_env_double :
    {Double : Type 0} → (Bytes → Double) → (Bytes → Option Bytes) → Option Bytes → Double → Double
unfolding get_env_string
get_env_double atof getenv variable default_value = elim (get_env_string getenv variable []) [
  | [] ↦ default_value
  | c ∷ value ↦ atof (c ∷ value)
]

abbrev pub icu_beside : Bytes → Bytes
icu_beside base_directory = base_directory ++ codes "/data/icudtl.dat"

abbrev pub icu_shared : Bytes
icu_shared = codes "/usr/share/flutter/icudtl.dat"

-- `base_directory`: the current directory in place of an empty one.
abbrev pub or_here : Bytes → Bytes
or_here [] = codes "."
or_here (c ∷ directory) = c ∷ directory

-- `FlutterGetAppAotElfName`.
abbrev pub app_aot_elf_name : Bytes
app_aot_elf_name = codes "../../lib/libapp.so"

-- Behind and up to the last slash, if there is one.
name_of : Bytes → Bytes
name_of path = elim (split_last b'/' path) [ none ↦ [] | some (directory, name) ↦ name ]

directory_of : Bytes → Bytes
directory_of path = elim (split_last b'/' path) [
  | none ↦ []
  | some (directory, name) ↦ directory ++ b'/' ∷ []
]

module _ (readlink : Bytes → ℕ → Option Bytes) (pid : ℕ) where
  -- `GetExecutablePath`; a result of -1 is `none`.
  unfoldable pub executable_path : Bytes
  executable_path = elim (readlink (codes "/proc/" ++ (to_string pid ++ codes "/exe")) 1024) [
    | none ↦ []
    | some path ↦ path
  ]

  -- `GetExecutableName`.
  unfoldable pub executable_name : Bytes
  unfolding executable_path name_of
  executable_name = name_of executable_path

  -- `GetExecutableDirectory`, with its slash.
  unfoldable pub executable_directory : Bytes
  unfolding executable_path directory_of
  executable_directory = directory_of executable_path

  -- `GetICUDataPath`.
  unfoldable pub icu_data_path : (Bytes → Bool) → Bytes
  unfolding executable_directory
  icu_data_path can_read =
      let beside = icu_beside (or_here executable_directory) in
      if can_read beside then beside else if can_read icu_shared then icu_shared else []

-- `FlutterAssetBundleIsValid`.
unfoldable pub asset_bundle_is_valid : (Bytes → Bool) → Bytes → Bool
asset_bundle_is_valid can_read bundle_path =
    let kernel = can_read (bundle_path ++ codes "/kernel_blob.bin") in
    let aotelf = can_read ((bundle_path ++ codes "/") ++ app_aot_elf_name) in
    if can_read bundle_path then kernel || aotelf else false
