-- ===== src/Files/Examples.antt =====
-- Paths of a small file system.
use flutter_embedder_wayland.Base.{ℕ, ◌≡◌, refl, Bool, Option, some, ◌==◌, length}
use flutter_embedder_wayland.Base.Text.{Bytes, codes}
use flutter_embedder_wayland.Locale.{split_last}
use flutter_embedder_wayland.Files.{executable_name, icu_data_path, icu_shared}

abbrev link : Bytes → ℕ → Option Bytes
link path size = some (codes "/opt/ui/launcher")

-- Only the shared data can be read: its path has 29 bytes.
abbrev shared_only : Bytes → Bool
shared_only path = length path == 29

name_of_launcher : executable_name link 7 ≡ codes "launcher"
unfolding executable_name split_last
name_of_launcher = refl

shared_data : icu_data_path link 7 shared_only ≡ icu_shared
unfolding icu_data_path split_last
shared_data = refl
