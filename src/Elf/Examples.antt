-- ===== src/Elf/Examples.antt =====
-- Runs of the loader.
use flutter_embedder_wayland.Base.{ℕ, ◌≡◌, refl, true, ◌&&◌, [], ◌∷◌, ◌==◌, if◌then◌else◌, length}
use flutter_embedder_wayland.Base.Text.{Bytes, codes}
use flutter_embedder_wayland.Elf.{no_snapshots, LoadResult, aot_load_elf}
use flutter_embedder_wayland.Elf.Symbols.{symbols_of, has_all, aot_load_elf_lem}

-- Each library has the handle 5 and all symbols but the data of the isolate.
abbrev lookup : ℕ → Bytes → ℕ
lookup fd name = if length name == 25 then 0 else length name

abbrev outcome : LoadResult
outcome = aot_load_elf (λ name. 5) lookup 99 (codes "app.so") 0 1 no_snapshots

library_closed : outcome.closed ≡ 5 ∷ []
unfolding aot_load_elf
library_closed = refl

aot_load_elf_lem_example :
    (outcome.loaded ≡ (true && has_all (λ name. 5) lookup 99 (symbols_of (λ name. 5) lookup 99 5)))
    × (outcome.out ≡ no_snapshots)
    × (outcome.error ≡ 99)
    × (outcome.closed ≡ 5 ∷ [])
    × (outcome.loaded ≡ true → outcome.elf.fd ≡ 5)
aot_load_elf_lem_example = aot_load_elf_lem (λ name. 5) lookup 99 (codes "app.so") 0 1 no_snapshots
