-- ===== src/Files/Paths.antt =====
-- What the paths of src/utils.cc have to do with one another.
use mathlib.Core.List.{append_assoc}
use flutter_embedder_wayland.Base.{
  ℕ, ◌≡◌, ◌≢◌, refl, ◌∙◌, ◌⊎◌, inl, inr, Bool, true, false, [], ◌∷◌, ◌++◌, Option, none, some,
  arith, ◌==◌, Bool-cases, if◌then◌else◌, All,
}
use flutter_embedder_wayland.Base.Text.{Bytes}
use flutter_embedder_wayland.Locale.{split_last}
use flutter_embedder_wayland.Files.{
  name_of, directory_of, or_here, executable_path, executable_name, executable_directory,
  icu_data_path, icu_beside, icu_shared,
}

-- A text without the separator is not split; otherwise the two parts with the separator between
-- them are the text, and the part behind it has none.
abbrev SplitsAt : ℕ → Bytes → Option (Bytes × Bytes) → Type 0
SplitsAt c s none = All (λ x. (x == c) ≡ false) s
SplitsAt c s (some (front, back)) = (front ++ c ∷ back ≡ s) × All (λ x. (x == c) ≡ false) back

split_last-SplitsAt : (c : ℕ) (s : Bytes) → SplitsAt c s (split_last c s)
unfolding split_last
split_last-SplitsAt c [] = tt
split_last-SplitsAt c (x ∷ s) = ground (arith, split_last-SplitsAt c s)

-- A path against its parts.
abbrev pub PathParts : Bytes → Bytes → Bytes → Type 0
PathParts path directory name =
    All (λ x. (x == b'/') ≡ false) name
    × ((directory ++ name ≡ path)
        ⊎ (All (λ x. (x == b'/') ≡ false) path × (directory ≡ []) × (name ≡ [])))

parts_of : (path : Bytes) → PathParts path (directory_of path) (name_of path)
unfolding directory_of name_of
parts_of path = go (split_last b'/' path) (split_last-SplitsAt b'/' path)
  where
    go :
        (o : Option (Bytes × Bytes))
        → SplitsAt b'/' path o
        → PathParts path
            (elim o [ none ↦ [] | some (directory, name) ↦ directory ++ b'/' ∷ [] ])
            (elim o [ none ↦ [] | some (directory, name) ↦ name ])
    go none h = (tt, inr (h, refl, refl))
    go (some (front, back)) (whole, plain) =
        (plain, inl (append_assoc front (b'/' ∷ []) back ∙ whole))

icu_beside_ne : (directory : Bytes) → icu_beside (or_here directory) ≢ []
icu_beside_ne [] e = cc
icu_beside_ne (c ∷ directory) e = cc

first_readable :
    (can_read : Bytes → Bool) (beside : Bytes)
    → beside ≢ []
    → let path =
        if can_read beside then beside else if can_read icu_shared then icu_shared else [] in
      (path ≢ [] → can_read path ≡ true)
      × (can_read beside ≡ true → path ≡ beside)
      × (can_read beside ≡ false → can_read icu_shared ≡ true → path ≡ icu_shared)
      × (path ≡ [] → (can_read beside ≡ false) × (can_read icu_shared ≡ false))
first_readable can_read beside ne = elim (Bool-cases (can_read beside)) [
  | inl near ↦ rw near (λ h. near, λ h. refl, λ h. absurd (cc), λ h. absurd (ne h))
  | inr far ↦ elim (Bool-cases (can_read icu_shared)) [
    | inl shared ↦ rw (far, shared) (λ h. shared, λ h. absurd (cc), λ h k. refl, λ h. absurd (cc))
    | inr nowhere ↦
        rw (far, nowhere)
          (λ h. absurd (h refl), λ h. absurd (cc), λ h k. absurd (cc), λ h. (refl, refl))
  ]
]

module _ (readlink : Bytes → ℕ → Option Bytes) (pid : ℕ) where
  -- The name of the executable has no slash. If its path has one, the directory and the name make up
  -- the path, and if not, both are empty.
  executable_directory-name :
      PathParts
        (executable_path readlink pid)
        (executable_directory readlink pid)
        (executable_name readlink pid)
  unfolding executable_directory executable_name
  executable_directory-name = parts_of (executable_path readlink pid)

  -- The file with the data of ICU: if a path is given, that can be read, and it is the one beside the
  -- executable (or in ./data, if its directory is not known) whenever that can be read, and else the
  -- shared one. No path is given only if neither can be read.
  pub icu_data_path_lem :
      (can_read : Bytes → Bool)
      → let beside = icu_beside (or_here (executable_directory readlink pid)) in
        let path = icu_data_path readlink pid can_read in
        (path ≢ [] → can_read path ≡ true)
        × (can_read beside ≡ true → path ≡ beside)
        × (can_read beside ≡ false → can_read icu_shared ≡ true → path ≡ icu_shared)
        × (path ≡ [] → (can_read beside ≡ false) × (can_read icu_shared ≡ false))
  unfolding icu_data_path
  icu_data_path_lem can_read =
      let directory = executable_directory readlink pid in
      first_readable can_read (icu_beside (or_here directory)) (icu_beside_ne directory)
