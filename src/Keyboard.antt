-- ===== src/Keyboard.antt =====
-- The keyboard of `WaylandDisplay` (src/wayland_display.h, src/wayland_display.cc): the keyboard
-- listener, `key_handler`, and the repetition of keys by a timer. Logging is left out, and with it
-- the argument `is_repeat` of `key_handler`, which is used for nothing else.
pub mod Modifiers
pub mod Message
pub mod XkbCommon
pub mod Events
pub mod Repeat
pub mod Examples
use Prim.Native.Nat.{bit_and, bit_or}
use flutter_embedder_wayland.Base.{
  ℕ, zero, suc, ◌+◌, ◌-◌, ◌*◌, ◌/◌, ◌%◌, ◌^◌, Bool, true, false, ◌&&◌, ◌||◌, Option, none, some,
  ◌==◌, if◌then◌else◌,
}
use flutter_embedder_wayland.Base.Int.{ℤ, pos, pos_part, ltb_ℤ}
use flutter_embedder_wayland.Base.Chain.{◌>>=◌}
use flutter_embedder_wayland.Base.Text.{Bytes}
use flutter_embedder_wayland.Time.{Timespec, timespec_from_msec}
use Modifiers.{to_gdk_modifiers}
use Message.{KeyEvent, print_key_event}
use XkbCommon.{Xkb}

-- `struct itimerspec`: the time to the first expiration and between the later ones.
pub record TimerSpec : Type 0 where
  pub it_value : Timespec
  pub it_interval : Timespec

-- The members for the keyboard, those of `key`, and the static variables of `key_handler`.
-- `timer` is what the timer descriptor was last set to.
pub record Keyboard (Keymap State : Type 0) : Type 0 where
  pub keymap_format : ℕ
  pub keymap : Keymap
  pub xkb_state : State
  pub key_modifiers : ℕ
  pub shift_lock_pressed : Bool
  pub caps_lock_pressed : Bool
  pub num_lock_pressed : Bool
  pub repeat_delay_ms : ℕ  -- int32_t, positive
  pub repeat_interval_ms : ℕ  -- int32_t, not negative
  pub last : ℕ  -- uint32_t
  pub state : ℕ  -- uint32_t
  pub timer : TimerSpec

-- WL_KEYBOARD_KEYMAP_FORMAT_NO_KEYMAP and WL_KEYBOARD_KEY_STATE_RELEASED, _PRESSED of the Wayland
-- protocol.
abbrev pub no_keymap : ℕ
no_keymap = 0

abbrev pub released : ℕ
released = 0

abbrev pub key_pressed : ℕ
key_pressed = 1

-- XKB_KEY_NoSymbol, and GDK_KEY_Num_Lock, GDK_KEY_Caps_Lock, GDK_KEY_Shift_Lock of GDK.
abbrev pub no_symbol : ℕ
no_symbol = 0

abbrev pub num_lock_key : ℕ
num_lock_key = 0xff7f

abbrev pub caps_lock_key : ℕ
caps_lock_key = 0xffe5

abbrev pub shift_lock_key : ℕ
shift_lock_key = 0xffe6

-- GDK_LOCK_MASK and GDK_MOD2_MASK.
abbrev pub lock_mask : ℕ
lock_mask = 2 ^ 1

abbrev pub mod2_mask : ℕ
mod2_mask = 2 ^ 4

-- A disarmed timer.
abbrev pub disarmed : TimerSpec
disarmed = record {
  it_value = record { tv_sec = pos 0; tv_nsec = pos 0 };
  it_interval = record { tv_sec = pos 0; tv_nsec = pos 0 };
}

module _ {Keymap State : Type 0} where
  -- The `switch` on the key symbol.
  unfoldable pub note_lock_key : ℕ → Bool → Keyboard Keymap State → Keyboard Keymap State
  note_lock_key keysym pressed k =
      if keysym == num_lock_key
      then record k { num_lock_pressed = pressed }
      else if keysym == caps_lock_key
      then record k { caps_lock_pressed = pressed }
      else if keysym == shift_lock_key
      then record k { shift_lock_pressed = pressed }
      else k

  -- `state`: the modifiers without the locks, and the lock keys that are held down.
  unfoldable pub event_state : Keyboard Keymap State → ℕ
  event_state k =
      let plain = bit_and k.key_modifiers (2 ^ 32 - 1 - bit_or lock_mask mod2_mask) in
      let locked =
        bit_or plain (if k.shift_lock_pressed || k.caps_lock_pressed then lock_mask else 0) in
      bit_or locked (if k.num_lock_pressed then mod2_mask else 0)

  -- The `repeat_info` event.
  unfoldable pub on_repeat_info : ℤ → ℤ → Keyboard Keymap State → Keyboard Keymap State
  on_repeat_info rate delay k =
      let interval = if ltb_ℤ (pos 0) rate then 1_000 / pos_part rate else k.repeat_interval_ms in
      let wait = if ltb_ℤ (pos 0) delay then pos_part delay else k.repeat_delay_ms in
      record k { repeat_interval_ms = interval; repeat_delay_ms = wait }

  -- The pointer leaves the surface.
  unfoldable pub on_pointer_leave : Keyboard Keymap State → Keyboard Keymap State
  on_pointer_leave k = record k { key_modifiers = 0 }

module _ {Keymap State : Type 0} (xkb : Xkb Keymap State) where
  -- The initializers of the members.
  unfoldable pub new : Keyboard Keymap State
  new = record {
    keymap_format = no_keymap;
    keymap = xkb.null_keymap;
    xkb_state = xkb.null_state;
    key_modifiers = 0;
    shift_lock_pressed = false;
    caps_lock_pressed = false;
    num_lock_pressed = false;
    repeat_delay_ms = 400;
    repeat_interval_ms = 40;
    last = 0;
    state = released;
    timer = disarmed;
  }

  -- The `keymap` event, with the text that the compositor shares.
  unfoldable pub on_keymap : ℕ → Bytes → Keyboard Keymap State → Keyboard Keymap State
  on_keymap format text k =
      let keymap = xkb.new_from_string text in
      record k { keymap_format = format; keymap = keymap; xkb_state = xkb.state_new keymap }

  -- The `modifiers` event.
  unfoldable pub on_modifiers : ℕ → ℕ → ℕ → ℕ → Keyboard Keymap State → Keyboard Keymap State
  on_modifiers depressed latched locked group k = record k {
    xkb_state = xkb.update_mask depressed latched locked group k.xkb_state;
  }

  -- `key_handler`: whether the key repeats, the new state, and the message, if one was sent. `none`
  -- is the fault of `toGDKModifiers`.
  unfoldable pub key_handler :
      ℕ → ℕ → Keyboard Keymap State → Option (Bool × (Keyboard Keymap State × Option Bytes))
  unfolding note_lock_key event_state
  key_handler key state_w k =
      let hardware_keycode = (key + k.keymap_format * 8) % 2 ^ 32 in
      let keysym = xkb.key_get_one_sym k.xkb_state hardware_keycode in
      let pressed = state_w == key_pressed in
      if k.keymap_format == no_keymap
      then some (false, (k, none))
      else if keysym == no_symbol
      then some (false, (k, none))
      else to_gdk_modifiers (xkb.mod_get_index k.keymap) (xkb.serialize_mods k.xkb_state)
        >>= λ modifiers.
            let k' = note_lock_key keysym pressed (record k { key_modifiers = modifiers }) in
            let event : KeyEvent = record {
              pressed = pressed;
              scan_code = hardware_keycode;
              key_code = keysym;
              modifiers = event_state k';
              unicode = xkb.keysym_to_utf32 keysym;
            } in
            some (
              xkb.key_repeats k.keymap hardware_keycode && pressed,
              (k', some (print_key_event event)),
            )

  -- The `key` event. `set` says whether `timerfd_settime` succeeds; a failure is only logged.
  unfoldable pub on_key :
      Bool → ℕ → ℕ → Keyboard Keymap State → Option (Keyboard Keymap State × Option Bytes)
  unfolding timespec_from_msec
  on_key set key state_w k =
      key_handler key state_w (record k { last = key; state = state_w })
      >>= λ (repeats, (k', message)).
          let delay_ms = if repeats then k'.repeat_delay_ms else 0 in
          let interval_ms = if repeats then k'.repeat_interval_ms else 0 in
          let spec : TimerSpec = record {
            it_value = timespec_from_msec (pos delay_ms);
            it_interval = timespec_from_msec (pos interval_ms);
          } in
          some (if set then record k' { timer = spec } else k', message)

  -- The timer has expired: `Run` repeats the last key event.
  unfoldable pub on_timer : Keyboard Keymap State → Option (Keyboard Keymap State × Option Bytes)
  unfolding key_handler
  on_timer k = key_handler k.last k.state k >>= λ (repeats, (k', message)). some (k', message)
