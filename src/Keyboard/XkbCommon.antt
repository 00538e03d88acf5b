-- ===== src/Keyboard/XkbCommon.antt =====
-- What the keyboard code uses of libxkbcommon: pointers to keymaps and states, which may be null,
-- and the functions on them.
use flutter_embedder_wayland.Base.{ℕ, Bool}
use flutter_embedder_wayland.Base.Text.{Bytes}
use flutter_embedder_wayland.Keyboard.Modifiers.{ModName}

pub record Xkb (Keymap State : Type 0) : Type 0 where
  pub null_keymap : Keymap
  pub null_state : State
  -- xkb_keymap_new_from_string, xkb_state_new
  pub new_from_string : Bytes → Keymap
  pub state_new : Keymap → State
  -- xkb_state_update_mask: depressed, latched and locked modifiers, and the group
  pub update_mask : ℕ → ℕ → ℕ → ℕ → State → State
  -- xkb_state_key_get_one_sym, xkb_state_serialize_mods (effective)
  pub key_get_one_sym : State → ℕ → ℕ
  pub serialize_mods : State → ℕ
  -- xkb_keymap_mod_get_index, xkb_keymap_key_repeats
  pub mod_get_index : Keymap → ModName → ℕ
  pub key_repeats : Keymap → ℕ → Bool
  -- xkb_keysym_to_utf32
  pub keysym_to_utf32 : ℕ → ℕ
