-- ===== src/Keyboard/Repeat.antt =====
-- The repetition of keys: over any sequence of events the timer runs only while the last key event
-- was a press, so what it repeats is a press.
use flutter_embedder_wayland.Base.{
  ℕ, ◌+◌, ◌*◌, ◌%◌, ◌^◌, ◌≡◌, ◌≢◌, refl, sym, ◌∙◌, subst, inl, inr, Bool, true, not, ◌&&◌, List, [],
  ◌∷◌, Option, none, some, arith, ◌==◌, if◌then◌else◌, Option-cases,
}
use flutter_embedder_wayland.Base.Int.{ℤ, pos}
use flutter_embedder_wayland.Base.Chain.{◌>>=◌}
use flutter_embedder_wayland.Base.Text.{Bytes}
use flutter_embedder_wayland.Time.{Timespec, timespec_from_msec, IsLong, timespec_from_msec_lem}
use flutter_embedder_wayland.Keyboard.Message.{
  KeyEvent, print_key_event, read_key_event, read_key_event_lem,
}
use flutter_embedder_wayland.Keyboard.XkbCommon.{Xkb}
use flutter_embedder_wayland.Keyboard.{
  Keyboard, key_pressed, no_keymap, no_symbol, new, event_state, key_handler, on_keymap,
  on_modifiers, on_key, on_timer, on_repeat_info, on_pointer_leave,
}

-- What reaches the keyboard in the main loop; `timerfd_settime` succeeds.
pub data Input : Type 0 where
  keymap : ℕ → Bytes → Input
  modifiers : ℕ → ℕ → ℕ → ℕ → Input
  key : ℕ → ℕ → Input
  expired pointer_left : Input
  repeat_info : ℤ → ℤ → Input

abbrev pub stopped : Timespec
stopped = record { tv_sec = pos 0; tv_nsec = pos 0 }

module _ {Keymap State : Type 0} (xkb : Xkb Keymap State) where
  unfoldable pub step :
      Input → Keyboard Keymap State → Option (Keyboard Keymap State × Option Bytes)
  step (keymap format text) k = some (on_keymap xkb format text k, none)
  step (modifiers depressed latched locked group) k =
      some (on_modifiers xkb depressed latched locked group k, none)
  step (key code state_w) k = on_key xkb true code state_w k
  step expired k = on_timer xkb k
  step pointer_left k = some (on_pointer_leave k, none)
  step (repeat_info rate delay) k = some (on_repeat_info rate delay k, none)

  unfoldable pub run : List Input → Keyboard Keymap State → Option (Keyboard Keymap State)
  run [] k = some k
  run (i ∷ is) k = step i k >>= λ (k', message). run is k'

  -- Whether a `key` event of this state makes the key repeat: it is pressed, it has a symbol, and the
  -- keymap, of a known format, lets it repeat.
  abbrev pub is_repeating : ℕ → ℕ → Keyboard Keymap State → Bool
  is_repeating code state_w k =
      let hardware = (code + k.keymap_format * 8) % 2 ^ 32 in
      not (k.keymap_format == no_keymap)
      && (not (xkb.key_get_one_sym k.xkb_state hardware == no_symbol)
          && (xkb.key_repeats k.keymap hardware && state_w == key_pressed))

  key_handler-is_repeating :
      (code state_w : ℕ) (k : Keyboard Keymap State) {repeats : Bool} {k' : Keyboard Keymap State}
      {m : Option Bytes}
      → key_handler xkb code state_w k ≡ some (repeats, (k', m))
      → repeats ≡ is_repeating code state_w k
  unfolding key_handler
  key_handler-is_repeating code state_w k h = ground arith

  -- A message of `key_handler` tells the key and the state that it was called with.
  record Frame (code state_w : ℕ) (k : Keyboard Keymap State) (repeats : Bool)
      (k' : Keyboard Keymap State) : Type 0 where
    timer : k'.timer ≡ k.timer
    state : k'.state ≡ k.state
    last : k'.last ≡ k.last
    delay : k'.repeat_delay_ms ≡ k.repeat_delay_ms
    interval : k'.repeat_interval_ms ≡ k.repeat_interval_ms
    pressed : repeats ≡ true → state_w ≡ key_pressed

  key_handler-Frame :
      (code state_w : ℕ) (k : Keyboard Keymap State) {repeats : Bool} {k' : Keyboard Keymap State}
      {m : Option Bytes}
      → key_handler xkb code state_w k ≡ some (repeats, (k', m))
      → Frame code state_w k repeats k'
  unfolding key_handler
  key_handler-Frame code state_w k h = ground arith

  -- What the `key` event sets the timer to.
  record Sets (code state_w : ℕ) (k : Keyboard Keymap State) (repeats : Bool)
      (k' : Keyboard Keymap State) : Type 0 where
    pressed : repeats ≡ true → state_w ≡ key_pressed
    decided : repeats ≡ is_repeating code state_w k
    value : k'.timer.it_value ≡ timespec_from_msec (pos (if repeats then k.repeat_delay_ms else 0))
    interval :
        k'.timer.it_interval
        ≡ timespec_from_msec (pos (if repeats then k.repeat_interval_ms else 0))
    state : k'.state ≡ state_w
    last : k'.last ≡ code

  on_key-Sets :
      (code state_w : ℕ) (k k' : Keyboard Keymap State) (m : Option Bytes)
      → on_key xkb true code state_w k ≡ some (k', m)
      → (repeats : Bool) × Sets code state_w k repeats k'
  unfolding on_key
  on_key-Sets code state_w k k' m h =
      elim (Option-cases
        (key_handler xkb code state_w (record k { last = code; state = state_w }))) [
          | inl e ↦ ground arith
          | inr ((repeats, (k₁, m₁)), e) ↦
              let frame : Frame code state_w (record k { last = code; state = state_w }) repeats
                  k₁ =
                key_handler-Frame code state_w _ e in
              let decided : repeats ≡ is_repeating code state_w k =
                key_handler-is_repeating code state_w _ e in
              (repeats, ground arith)
        ]

  on_timer-Frame :
      (k k' : Keyboard Keymap State) (m : Option Bytes)
      → on_timer xkb k ≡ some (k', m)
      → (k'.timer ≡ k.timer) × (k'.state ≡ k.state)
  unfolding on_timer
  on_timer-Frame k k' m h = ground arith

  handler_message :
      (code state_w : ℕ) (k k' : Keyboard Keymap State) (repeats : Bool) (message : Bytes)
      → key_handler xkb code state_w k ≡ some (repeats, (k', some message))
      → (e : KeyEvent) × (read_key_event message ≡ some e)
        × (e.pressed ≡ (state_w == key_pressed))
        × (e.scan_code ≡ (code + k.keymap_format * 8) % 2 ^ 32)
  handler_message code state_w k k' repeats message h =
      let hardware = (code + k.keymap_format * 8) % 2 ^ 32 in
      let keysym = xkb.key_get_one_sym k.xkb_state hardware in
      let e : KeyEvent = record {
        pressed = state_w == key_pressed;
        scan_code = hardware;
        key_code = keysym;
        modifiers = event_state k';
        unicode = xkb.keysym_to_utf32 keysym;
      } in
      let printed : message ≡ print_key_event e = unfold key_handler in ground arith in
      (e, rw printed (read_key_event_lem e), refl, refl)

  -- What the `key` event does to the repetition, where the timer can be set: if the key is pressed and
  -- has a symbol, and the keymap, of a known format, lets it repeat, then the timer is set to the
  -- delay and the interval in effect; otherwise it is stopped (two times of 0), whatever other key it
  -- was that repeated. The event is kept for the expirations of the timer.
  pub on_key_timer :
      (code state_w : ℕ) (k k' : Keyboard Keymap State) (m : Option Bytes)
      → on_key xkb true code state_w k ≡ some (k', m)
      → let repeats = is_repeating code state_w k in
        IsLong k'.timer.it_value ((if repeats then k.repeat_delay_ms else 0) * 1_000_000)
        × IsLong k'.timer.it_interval ((if repeats then k.repeat_interval_ms else 0) * 1_000_000)
        × (k'.last ≡ code)
        × (k'.state ≡ state_w)
  on_key_timer code state_w k k' m h =
      let (repeats, sets) = on_key-Sets code state_w k k' m h in
      let wait = if is_repeating code state_w k then k.repeat_delay_ms else 0 in
      let pause = if is_repeating code state_w k then k.repeat_interval_ms else 0 in
      (
        subst (λ t. IsLong t (wait * 1_000_000)) (sym (sets.value ∙ rw sets.decided refl))
            (timespec_from_msec_lem wait),
        subst (λ t. IsLong t (pause * 1_000_000)) (sym (sets.interval ∙ rw sets.decided refl))
            (timespec_from_msec_lem pause),
        sets.last,
        sets.state,
      )

  on_timer_inv :
      (k k' : Keyboard Keymap State) (m : Option Bytes)
      → on_timer xkb k ≡ some (k', m)
      → (repeats : Bool) × (key_handler xkb k.last k.state k ≡ some (repeats, (k', m)))
  unfolding on_timer
  on_timer_inv k k' m h = elim (Option-cases (key_handler xkb k.last k.state k)) [
    | inl e ↦ absurd (ground arith)
    | inr ((repeats, (k₁, m₁)), e) ↦ (repeats, ground arith)
  ]

  -- While the timer runs, the last event was a press.
  abbrev pub IsPress : Keyboard Keymap State → Type 0
  IsPress k = k.timer.it_value ≢ stopped → k.state ≡ key_pressed

  on_key-IsPress :
      (code state_w : ℕ) (k k' : Keyboard Keymap State) (m : Option Bytes)
      → on_key xkb true code state_w k ≡ some (k', m)
      → IsPress k'
  on_key-IsPress code state_w k k' m h =
      let (repeats, sets) = on_key-Sets code state_w k k' m h in
      unfold timespec_from_msec in ground arith

  pub on_timer-IsPress :
      (k k' : Keyboard Keymap State) (m : Option Bytes)
      → on_timer xkb k ≡ some (k', m)
      → IsPress k
      → IsPress k'
  on_timer-IsPress k k' m h p = ground (arith, on_timer-Frame k k' m h)

  pub step-IsPress :
      (i : Input) (k k' : Keyboard Keymap State) (m : Option Bytes)
      → step i k ≡ some (k', m)
      → IsPress k
      → IsPress k'
  unfolding step on_keymap on_modifiers on_pointer_leave on_repeat_info
  step-IsPress (keymap format text) k k' m h p = ground arith
  step-IsPress (modifiers depressed latched locked group) k k' m h p = ground arith
  step-IsPress (key code state_w) k k' m h p = on_key-IsPress code state_w k k' m h
  step-IsPress expired k k' m h p = on_timer-IsPress k k' m h p
  step-IsPress pointer_left k k' m h p = ground arith
  step-IsPress (repeat_info rate delay) k k' m h p = ground arith

  run-IsPress :
      (is : List Input) (k k' : Keyboard Keymap State) → run is k ≡ some k' → IsPress k → IsPress k'
  unfolding run
  run-IsPress [] k k' h p = ground arith
  run-IsPress (i ∷ is) k k' h p = elim (Option-cases (step i k)) [
    | inl e ↦ absurd (ground arith)
    | inr ((k₁, m), e) ↦ run-IsPress is k₁ k' (ground arith) (step-IsPress i k k₁ m e p)
  ]

  -- Whatever has reached the keyboard since the start: if the timer runs and its expiration sends a
  -- message, that tells a press, of the key of the last key event.
  pub repeats_are_presses :
      (is : List Input) (k k' : Keyboard Keymap State) (message : Bytes)
      → run is (new xkb) ≡ some k
      → k.timer.it_value ≢ stopped
      → on_timer xkb k ≡ some (k', some message)
      → (e : KeyEvent) × (read_key_event message ≡ some e)
        × (e.pressed ≡ true)
        × (e.scan_code ≡ (k.last + k.keymap_format * 8) % 2 ^ 32)
  unfolding new
  repeats_are_presses is k k' message h running sent =
      let press : k.state ≡ key_pressed =
        run-IsPress is (new xkb) k h (λ differs. absurd (differs refl)) running in
      let (repeats, handled) = on_timer_inv k k' (some message) sent in
      let (e, reads, state, code) = handler_message k.last k.state k k' repeats message handled in
      (e, reads, state ∙ ground arith, code)
