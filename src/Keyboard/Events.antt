-- ===== src/Keyboard/Events.antt =====
-- What `key_handler` does with a key event: when it sends a message, and what the message says.
use Prim.Native.Nat.{bit_or}
use flutter_embedder_wayland.Base.{
  ℕ, zero, suc, ◌+◌, ◌-◌, ◌*◌, ◌%◌, ◌^◌, ◌<◌, ◌≡◌, ◌≢◌, refl, ◌∙◌, Bool, true, false, ◌&&◌, ◌||◌,
  not, some, arith, ◌==◌, ==_iff, Bool-cases, inl, inr, if◌then◌else◌,
}
use flutter_embedder_wayland.Base.Text.{Bytes}
use flutter_embedder_wayland.Base.Bits.{
  test_bit, test_bit-or, test_bit-and, test_bit-zero, test_bit-pow,
}
use flutter_embedder_wayland.Keyboard.Modifiers.{ModName, expected, to_gdk_modifiers_lem}
use flutter_embedder_wayland.Keyboard.Message.{
  KeyEvent, print_key_event, read_key_event, read_key_event_lem,
}
use flutter_embedder_wayland.Keyboard.XkbCommon.{Xkb}
use flutter_embedder_wayland.Keyboard.{
  Keyboard, no_keymap, no_symbol, key_pressed, note_lock_key, event_state, key_handler, lock_mask,
  mod2_mask, num_lock_key, caps_lock_key, shift_lock_key,
}

-- Whether two predicates give one answer at each number below a bound.
agree : (ℕ → Bool) → (ℕ → Bool) → ℕ → Bool
agree f g zero = true
agree f g (suc n) = elim (f n) [ true ↦ g n && agree f g n | false ↦ not (g n) && agree f g n ]

agree_lem : (f g : ℕ → Bool) (n k : ℕ) → agree f g n ≡ true → k < n → f k ≡ g k
unfolding agree
agree_lem f g (suc n) k h below = elim (Bool-cases (k == n)) [
  | inl last ↦ rw ((==_iff k n).0 last) (ground arith)
  | inr other ↦ agree_lem f g n k (ground arith) (ground arith)
]
agree_lem f g zero k h below = absurd (omega arith)

-- The mask that takes the lock bits out of a word.
abbrev plain_mask : ℕ
plain_mask = 2 ^ 32 - 1 - bit_or lock_mask mod2_mask

-- All of its 32 bits.
plain_mask_bits : agree (test_bit plain_mask) (λ k. not (k == 1 || k == 4)) 32 ≡ true
unfolding agree test_bit
plain_mask_bits = refl

test_bit-plain_mask : (k : ℕ) → k < 32 → test_bit plain_mask k ≡ not (k == 1 || k == 4)
test_bit-plain_mask k below = agree_lem _ _ 32 k plain_mask_bits below

test_bit-if_pow : (b : Bool) (j k : ℕ) → test_bit (if b then 2 ^ j else 0) k ≡ (j == k && b)
test_bit-if_pow true j k = test_bit-pow j k ∙ ground arith
test_bit-if_pow false j k = test_bit-zero k ∙ ground arith

-- The bit of a lock says whether its key is held down.
abbrev pub with_locks : Bool → Bool → ℕ → Bool → Bool
with_locks caps num k b = if k == 1 then caps else if k == 4 then num else b

module _ {Keymap State : Type 0} where
  test_bit-event_state :
      (s : Keyboard Keymap State) (k : ℕ)
      → k < 32
      → test_bit (event_state s) k
        ≡ with_locks
            (s.shift_lock_pressed || s.caps_lock_pressed)
            s.num_lock_pressed
            k
            (test_bit s.key_modifiers k)
  unfolding event_state
  test_bit-event_state s k h =
      rw
        (
          test_bit-or,
          test_bit-if_pow s.num_lock_pressed 4 k,
          test_bit-or,
          test_bit-if_pow (s.shift_lock_pressed || s.caps_lock_pressed) 1 k,
          test_bit-and,
          test_bit-plain_mask k h,
        )
        (ground arith)

  -- Which lock keys are held down after an event.
  pub record Locks (keysym : ℕ) (pressed : Bool) (k k' : Keyboard Keymap State) : Type 0 where
    pub num : k'.num_lock_pressed ≡ (if keysym == num_lock_key then pressed else k.num_lock_pressed)
    pub caps :
        k'.caps_lock_pressed ≡ (if keysym == caps_lock_key then pressed else k.caps_lock_pressed)
    pub shift :
        k'.shift_lock_pressed ≡ (if keysym == shift_lock_key then pressed else k.shift_lock_pressed)
    pub others : k' ≡ record k {
      key_modifiers = k'.key_modifiers;
      shift_lock_pressed = k'.shift_lock_pressed;
      caps_lock_pressed = k'.caps_lock_pressed;
      num_lock_pressed = k'.num_lock_pressed;
    }

  note_lock_key_lem :
      (keysym : ℕ) (pressed : Bool) (k : Keyboard Keymap State)
      → Locks keysym pressed k (note_lock_key keysym pressed k)
  unfolding note_lock_key
  note_lock_key_lem keysym pressed k = ground arith

  note_lock_key-key_modifiers :
      (keysym : ℕ) (pressed : Bool) (k : Keyboard Keymap State)
      → (note_lock_key keysym pressed k).key_modifiers ≡ k.key_modifiers
  unfolding note_lock_key
  note_lock_key-key_modifiers keysym pressed k = ground arith

-- The event that a message tells, for key `key` in state `state_w`.
pub record Tells {Keymap State : Type 0} (xkb : Xkb Keymap State) (key state_w : ℕ)
    (k k' : Keyboard Keymap State) (e : KeyEvent) : Type 0 where
  pub pressed : e.pressed ≡ (state_w == key_pressed)
  pub scan_code : e.scan_code ≡ (key + k.keymap_format * 8) % 2 ^ 32
  pub key_code : e.key_code ≡ xkb.key_get_one_sym k.xkb_state e.scan_code
  pub unicode : e.unicode ≡ xkb.keysym_to_utf32 e.key_code
  pub modifiers :
      (b : ℕ)
      → b < 32
      → test_bit e.modifiers b
        ≡ with_locks
            (k'.shift_lock_pressed || k'.caps_lock_pressed)
            k'.num_lock_pressed
            b
            (expected (xkb.mod_get_index k.keymap) (xkb.serialize_mods k.xkb_state) b)

-- With a keymap that has all the modifiers, an event of a key that has a symbol sends one message.
-- It reads back as the key, its state and its character, with the bits of the modifiers that are on;
-- only the bits of Lock and Mod2 tell instead whether a lock key is held down. The key repeats if it
-- is pressed and the keymap says so. Of the keyboard only the modifiers and the lock keys change.
pub key_handler_message :
    {Keymap State : Type 0} (xkb : Xkb Keymap State) (key state_w : ℕ) (k : Keyboard Keymap State)
    → ((name : ModName) → xkb.mod_get_index k.keymap name < 32)
    → k.keymap_format ≢ no_keymap
    → xkb.key_get_one_sym k.xkb_state ((key + k.keymap_format * 8) % 2 ^ 32) ≢ no_symbol
    → (k' : Keyboard Keymap State) × (message : Bytes) × (e : KeyEvent) × (key_handler xkb key
          state_w k
        ≡ some (xkb.key_repeats k.keymap e.scan_code && state_w == key_pressed, (k', some message)))
      × (read_key_event message ≡ some e)
      × Tells xkb key state_w k k' e
      × Locks e.key_code (state_w == key_pressed) k k'
unfolding key_handler
key_handler_message {Keymap} {State} xkb key state_w k in_range has_keymap has_symbol =
    let code = (key + k.keymap_format * 8) % 2 ^ 32 in
    let keysym = xkb.key_get_one_sym k.xkb_state code in
    let on = state_w == key_pressed in
    let (mods, e, bits) =
      to_gdk_modifiers_lem (xkb.mod_get_index k.keymap) (xkb.serialize_mods k.xkb_state) in_range in
    let k₀ : Keyboard Keymap State = record k { key_modifiers = mods } in
    let k' = note_lock_key keysym on k₀ in
    let event : KeyEvent = record {
      pressed = on;
      scan_code = code;
      key_code = keysym;
      modifiers = event_state k';
      unicode = xkb.keysym_to_utf32 keysym;
    } in
    let format : (k.keymap_format == no_keymap) ≡ false = ground arith in
    let symbol : (keysym == no_symbol) ≡ false = ground arith in
    let locks : Locks keysym on k₀ k' = note_lock_key_lem keysym on k₀ in
    let tells : Tells xkb key state_w k k' event = record {
      pressed = refl;
      scan_code = refl;
      key_code = refl;
      unicode = refl;
      modifiers = λ b h.
          test_bit-event_state k' b h ∙ rw (note_lock_key-key_modifiers keysym on k₀, bits b) refl;
    } in
    (
      k',
      print_key_event event,
      event,
      rw (format, symbol, e) refl,
      read_key_event_lem event,
      tells,
      record { num = locks.num; caps = locks.caps; shift = locks.shift; others = locks.others },
    )
