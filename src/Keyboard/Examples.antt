-- ===== src/Keyboard/Examples.antt =====
-- Runs of the keyboard code, with a small keymap in place of libxkbcommon.
use flutter_embedder_wayland.Base.{
  ℕ, ◌+◌, ◌*◌, ◌^◌, ◌<◌, ◌≡◌, refl, true, false, ◌&&◌, List, [], ◌∷◌, some, arith, leb, ◌==◌,
  if◌then◌else◌,
}
use flutter_embedder_wayland.Base.Int.{pos}
use flutter_embedder_wayland.Base.Text.{Bytes, codes}
use flutter_embedder_wayland.Base.Bits.{test_bit}
use flutter_embedder_wayland.Time.{IsLong}
use flutter_embedder_wayland.Keyboard.Modifiers.{
  ModName, to_gdk_modifiers, scan_table, has_modifier, expected, to_gdk_modifiers_lem,
}
use flutter_embedder_wayland.Keyboard.Message.{KeyEvent, print_key_event, read_key_event}
use flutter_embedder_wayland.Keyboard.XkbCommon.{Xkb}
use flutter_embedder_wayland.Keyboard.Events.{Locks, Tells, key_handler_message}
use flutter_embedder_wayland.Keyboard.Repeat.{
  Input, keymap, modifiers, key, run, step, on_key_timer, repeats_are_presses,
}
use flutter_embedder_wayland.Keyboard.{
  Keyboard, new, key_pressed, disarmed, on_keymap, on_modifiers, key_handler, on_key, on_timer,
}

abbrev indices : ModName → ℕ
indices ModName.shift = 0
indices ModName.ctrl = 2
indices ModName.alt = 3
indices ModName.meta = 5
indices _ = 6

-- A keymap is a number, and so is the state: the mask of the modifiers. All keys but 10 have a
-- symbol, their own code; only those from 30 on repeat.
abbrev pub small_xkb : Xkb ℕ ℕ
small_xkb = record {
  null_keymap = 0;
  null_state = 0;
  new_from_string = λ text. 1;
  state_new = λ map. 0;
  update_mask = λ depressed latched locked group state. depressed;
  key_get_one_sym = λ state code. if code == 10 then 0 else code;
  serialize_mods = λ state. state;
  mod_get_index = λ map name. indices name;
  key_repeats = λ map code. leb 30 code;
  keysym_to_utf32 = λ sym. sym;
}

indices_in_range : (name : ModName) → indices name < 32
indices_in_range name = ground arith

-- Shift and Meta are on, Alt is off.
shift_and_meta : to_gdk_modifiers indices 33 ≡ some (2 ^ 28 + 1)
unfolding to_gdk_modifiers scan_table has_modifier
shift_and_meta = refl

to_gdk_modifiers_lem_example :
    (r : ℕ) × (to_gdk_modifiers indices 33 ≡ some r)
    × ((k : ℕ) → test_bit r k ≡ expected indices 33 k)
to_gdk_modifiers_lem_example = to_gdk_modifiers_lem indices 33 indices_in_range

-- A keymap has come, and Shift is held down.
abbrev pub typing : Keyboard ℕ ℕ
typing = record {
  keymap_format = 1;
  keymap = 1;
  xkb_state = 1;
  key_modifiers = 0;
  shift_lock_pressed = false;
  caps_lock_pressed = false;
  num_lock_pressed = false;
  repeat_delay_ms = 400;
  repeat_interval_ms = 40;
  last = 0;
  state = 0;
  timer = disarmed;
}

key_handler_message_example :
    (k' : Keyboard ℕ ℕ) × (message : Bytes) × (e : KeyEvent) × (key_handler small_xkb 30 1 typing
      ≡ some (leb 30 e.scan_code && true, (k', some message)))
    × (read_key_event message ≡ some e)
    × Tells small_xkb 30 1 typing k' e
    × Locks e.key_code true typing k'
key_handler_message_example =
    key_handler_message small_xkb 30 1 typing indices_in_range (omega arith) (omega arith)

-- A keymap, Shift, and the press of key 30, which then repeats.
abbrev presses : List Input
presses = keymap 1 (codes "map") ∷ modifiers 1 0 0 0 ∷ key 30 1 ∷ []

abbrev held_down : Keyboard ℕ ℕ
held_down = record typing {
  key_modifiers = 1;
  last = 30;
  state = 1;
  timer = record {
    it_value = record { tv_sec = pos 0; tv_nsec = pos 400_000_000 };
    it_interval = record { tv_sec = pos 0; tv_nsec = pos 40_000_000 };
  };
}

after_presses : run small_xkb presses (new small_xkb) ≡ some held_down
unfolding run step new on_keymap on_modifiers on_key key_handler to_gdk_modifiers scan_table
    has_modifier
after_presses = refl

abbrev pressed_a : KeyEvent
pressed_a = record { pressed = true; scan_code = 38; key_code = 38; modifiers = 1; unicode = 38 }

press_sends :
    on_key small_xkb true 30 1 (record typing { xkb_state = 1 })
    ≡ some (held_down, some (print_key_event pressed_a))
unfolding on_key key_handler to_gdk_modifiers scan_table has_modifier
press_sends = refl

on_key_timer_example :
    IsLong held_down.timer.it_value (400 * 1_000_000)
    × IsLong held_down.timer.it_interval (40 * 1_000_000)
    × (held_down.last ≡ 30)
    × (held_down.state ≡ key_pressed)
on_key_timer_example = on_key_timer small_xkb 30 1 typing held_down _ press_sends

timer_sends : on_timer small_xkb held_down ≡ some (held_down, some (print_key_event pressed_a))
unfolding on_timer key_handler to_gdk_modifiers scan_table has_modifier
timer_sends = refl

repeats_are_presses_example :
    (e : KeyEvent) × (read_key_event (print_key_event pressed_a) ≡ some e)
    × (e.pressed ≡ true)
    × (e.scan_code ≡ 38)
repeats_are_presses_example =
    repeats_are_presses small_xkb presses held_down held_down (print_key_event pressed_a)
      after_presses (λ e. cc) timer_sends
