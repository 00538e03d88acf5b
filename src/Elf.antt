-- ===== src/Elf.antt =====
-- The loader of the precompiled application (src/elf.cc): `LoadedElf` and `Aot_LoadELF`. A pointer
-- is a number, and 0 is the null pointer. dlopen(3), dlsym(3) and strerror(3) are arguments.
pub mod Symbols
mod Examples
use flutter_embedder_wayland.Base.{
  ℕ, Bool, true, false, ◌&&◌, ◌||◌, not, List, [], ◌∷◌, ◌==◌, if◌then◌else◌,
}
use flutter_embedder_wayland.Base.Text.{Bytes, codes}

-- The out parameters, and the members of the same names.
pub record Snapshots : Type 0 where
  pub vm_data : ℕ
  pub vm_instructions : ℕ
  pub isolate_data : ℕ
  pub isolate_instructions : ℕ

pub record LoadedElf : Type 0 where
  pub filename : Bytes
  pub elf_data_offset : ℕ
  pub error : ℕ
  pub fd : ℕ
  pub found : Snapshots

abbrev pub no_snapshots : Snapshots
no_snapshots = record {
  vm_data = 0;
  vm_instructions = 0;
  isolate_data = 0;
  isolate_instructions = 0;
}

-- The constructor.
unfoldable pub new : Bytes → ℕ → LoadedElf
new filename elf_data_offset = record {
  filename = filename;
  elf_data_offset = elf_data_offset;
  error = 0;
  fd = 0;
  found = no_snapshots;
}

-- The handles that the destructor closes with dlclose(3).
unfoldable pub destroy : LoadedElf → List ℕ
destroy e = if e.fd == 0 then [] else e.fd ∷ []

-- What `Aot_LoadELF` leaves: the handle, if it succeeds, `*error`, the out parameters and the
-- handles that were closed.
pub record LoadResult : Type 0 where
  pub loaded : Bool
  pub elf : LoadedElf
  pub error : ℕ
  pub out : Snapshots
  pub closed : List ℕ

module _ (dlopen : Bytes → ℕ) (dlsym : ℕ → Bytes → ℕ) (strerror : ℕ) where
  unfoldable pub load : LoadedElf → Bool × LoadedElf
  load e =
      let e' : LoadedElf = record e { fd = dlopen e.filename } in
      if e.elf_data_offset == 0
      then (if e'.fd == 0 then (false, e') else (true, e'))
      else (false, e)

  -- The block of the four lookups, which a lookup that fails ends.
  unfoldable pub find_symbols : LoadedElf → LoadedElf
  find_symbols e =
      let vm_instructions = dlsym e.fd (codes "_kDartVmSnapshotInstructions") in
      let isolate_instructions = dlsym e.fd (codes "_kDartIsolateSnapshotInstructions") in
      let vm_data = dlsym e.fd (codes "_kDartVmSnapshotData") in
      let isolate_data = dlsym e.fd (codes "_kDartIsolateSnapshotData") in
      let e₁ : LoadedElf = record e {
        found = record (e.found) { vm_instructions = vm_instructions };
      } in
      let e₂ : LoadedElf = record e₁ {
        found = record (e₁.found) { isolate_instructions = isolate_instructions };
      } in
      let e₃ : LoadedElf = record e₂ { found = record (e₂.found) { vm_data = vm_data } } in
      let e₄ : LoadedElf = record e₃ {
        found = record (e₃.found) { isolate_data = isolate_data };
      } in
      if vm_instructions == 0
      then record e₁ { error = strerror }
      else if isolate_instructions == 0
      then record e₂ { error = strerror }
      else if vm_data == 0
      then record e₃ { error = strerror }
      else if isolate_data == 0
      then record e₄ { error = strerror }
      else e₄

  -- `ResolveSymbols`, with the out parameters before and after.
  unfoldable pub resolve_symbols : LoadedElf → Snapshots → Bool × (LoadedElf × Snapshots)
  unfolding find_symbols
  resolve_symbols e out =
      let e' = find_symbols e in
      let s = e'.found in
      if e.error == 0
      then (if s.vm_data == 0
            || s.vm_instructions == 0
            || s.isolate_data == 0
            || s.isolate_instructions == 0
          then (false, (e', no_snapshots))
          else (true, (e', s)))
      else (false, (e, out))

  unfoldable pub aot_load_elf : Bytes → ℕ → ℕ → Snapshots → LoadResult
  unfolding new destroy load resolve_symbols
  aot_load_elf filename file_offset error out =
      let (opened, e) = load (new filename file_offset) in
      let (resolved, (e', out')) = resolve_symbols e out in
      if opened
      then (if resolved
          then record { loaded = true; elf = e'; error = error; out = out'; closed = [] }
          else record {
            loaded = false;
            elf = e';
            error = e'.error;
            out = out';
            closed = destroy e';
          })
      else record { loaded = false; elf = e; error = e.error; out = out; closed = destroy e }
