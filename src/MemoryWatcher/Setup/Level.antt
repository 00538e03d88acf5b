-- ===== src/MemoryWatcher/Setup/Level.antt =====
-- The setup of the memory watcher does not change its current level, nor the time of the last
-- warning.
use flutter_embedder_wayland.Base.{◌≡◌, refl, [], ◌∷◌, arith}
use flutter_embedder_wayland.Base.Text.{Bytes}
use flutter_embedder_wayland.MemoryWatcher.{Watcher}
use flutter_embedder_wayland.MemoryWatcher.Setup.{
  Os, cleanup, leave, open_watcher, setup, pieces, read_levels,
}

-- Where the warnings stand.
pub record Stays (w v : Watcher) : Type 0 where
  pub level : v.current_level ≡ w.current_level
  pub last_warning : v.last_warning_sent_ns ≡ w.last_warning_sent_ns

open_watcher-Stays : (os : Os) (path : Bytes) (w : Watcher) → Stays w (open_watcher os path w).1.0
unfolding open_watcher leave cleanup
open_watcher-Stays os path w = ground arith

pub setup-Stays :
    (os : Os) (path levels_text : Bytes) (w : Watcher) → Stays w (setup os path levels_text w).1.0
unfolding setup
setup-Stays os [] levels_text w = record { level = refl; last_warning = refl }
setup-Stays os (p ∷ path) [] w = record { level = refl; last_warning = refl }
setup-Stays os (p ∷ path) (c ∷ levels_text) w =
    let (levels, ok) = read_levels (pieces [] (c ∷ levels_text)) w.levels in
    ground (arith, open_watcher-Stays os (p ∷ path) (record w { levels = levels }))
