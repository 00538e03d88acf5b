-- ===== src/Elf/Symbols.antt =====
-- When the loader succeeds, what it hands out, and what becomes of the library.
use flutter_embedder_wayland.Base.{
  ℕ, ◌≡◌, refl, Bool, true, ◌&&◌, not, [], ◌∷◌, arith, ◌==◌, if◌then◌else◌,
}
use flutter_embedder_wayland.Base.Text.{Bytes, codes}
use flutter_embedder_wayland.Elf.{
  Snapshots, LoadedElf, no_snapshots, find_symbols, resolve_symbols, load, new, destroy,
  aot_load_elf,
}

module _ (dlopen : Bytes → ℕ) (dlsym : ℕ → Bytes → ℕ) (strerror : ℕ) where
  -- The symbols of a library, each under its name.
  abbrev pub symbols_of : ℕ → Snapshots
  symbols_of fd = record {
    vm_data = dlsym fd (codes "_kDartVmSnapshotData");
    vm_instructions = dlsym fd (codes "_kDartVmSnapshotInstructions");
    isolate_data = dlsym fd (codes "_kDartIsolateSnapshotData");
    isolate_instructions = dlsym fd (codes "_kDartIsolateSnapshotInstructions");
  }

  abbrev pub has_all : Snapshots → Bool
  has_all s =
      not (s.vm_data == 0)
      && not (s.vm_instructions == 0)
      && not (s.isolate_data == 0)
      && not (s.isolate_instructions == 0)

  -- The file can be opened as a library.
  abbrev pub opens : Bytes → ℕ → Bool
  opens filename file_offset = file_offset == 0 && not (dlopen filename == 0)

  resolve_symbols_lem :
      (e : LoadedElf) (out : Snapshots)
      → e.error ≡ 0
      → e.found ≡ no_snapshots
      → let (resolved, (e', out')) = resolve_symbols dlopen dlsym strerror e out in
        (resolved ≡ has_all (symbols_of e.fd))
        × (out' ≡ (if has_all (symbols_of e.fd) then symbols_of e.fd else no_snapshots))
        × (e'.error ≡ (if has_all (symbols_of e.fd) then 0 else strerror))
        × (e'.fd ≡ e.fd)
  unfolding resolve_symbols find_symbols
  resolve_symbols_lem e out h k = ground arith

  -- The loader succeeds exactly if the offset is 0, the file opens as a library and that has all four
  -- symbols. Then it hands out each symbol under its name, and the library stays open. Otherwise it
  -- hands out null pointers if the library was opened, with a message of the system and the library
  -- closed again once, and touches no pointer and leaves no message if it was not.
  pub aot_load_elf_lem :
      (filename : Bytes) (file_offset error : ℕ) (out : Snapshots)
      → let r = aot_load_elf dlopen dlsym strerror filename file_offset error out in
        let opened = opens filename file_offset in
        let fd = dlopen filename in
        let complete = has_all (symbols_of fd) in
        (r.loaded ≡ (opened && complete))
        × (r.out ≡ (if opened then (if complete then symbols_of fd else no_snapshots) else out))
        × (r.error ≡ (if opened then (if complete then error else strerror) else 0))
        × (r.closed ≡ (if opened && not complete then fd ∷ [] else []))
        × (r.loaded ≡ true → r.elf.fd ≡ fd)
  unfolding aot_load_elf load new destroy
  aot_load_elf_lem filename file_offset error out =
      let e : LoadedElf = record (new filename file_offset) { fd = dlopen filename } in
      ground (arith, resolve_symbols_lem e out refl refl)
