-- ===== src/Engine/Examples.antt =====
-- Arguments for an engine.
use flutter_embedder_wayland.Base.{◌≡◌, refl, true, false, [], ◌∷◌, some, none, ◌==◌}
use flutter_embedder_wayland.Base.Text.{codes}
use flutter_embedder_wayland.Locale.{c_str, split_last}
use flutter_embedder_wayland.Files.{icu_data_path}
use flutter_embedder_wayland.Elf.{no_snapshots, aot_load_elf}
use flutter_embedder_wayland.Engine.{Sources, engine_args, resolved_locale, send_message}

-- The library of the application lacks a symbol.
abbrev incomplete : Sources
incomplete = record {
  can_read = λ path. true;
  opens = λ path. true;
  readlink = λ path size. some (codes "/opt/ui/launcher");
  pid = 7;
  eventfd = true;
  runs_aot = true;
  dlopen = λ path. 5;
  dlsym = λ fd name. 0;
  strerror = 99;
}

not_initialized : engine_args incomplete (codes "/app") [] ≡ none
unfolding engine_args icu_data_path aot_load_elf split_last
not_initialized = refl

-- An engine that does not run precompiled code does not load it.
without_aot :
    engine_args (record incomplete { runs_aot = false }) (codes "/app") (codes "--a" ∷ [])
    ≡ some (record {
      assets_path = codes "/app";
      icu_data_path = codes "/opt/ui//data/icudtl.dat";
      command_line_argc = 1;
      command_line_argv = codes "--a" ∷ [];
      snapshots = no_snapshots;
    })
unfolding engine_args icu_data_path aot_load_elf split_last c_str
without_aot = refl

no_supported_locale : resolved_locale [] ≡ none
unfolding resolved_locale
no_supported_locale = refl

message_is_sent :
    send_message (λ m. m.message_size == 2) (codes "flutter/keyevent") (codes "{}") 2 ≡ true
unfolding send_message
message_is_sent = refl
