-- ===== src/Keyboard/Modifiers.antt =====
-- src/keys.cc: from the modifiers of xkbcommon to those of GDK.
use Prim.Native.Nat.{bit_and, bit_or}
use flutter_embedder_wayland.Base.{
  ℕ, ◌^◌, ◌<◌, ◌≡◌, refl, ◌∙◌, Bool, true, false, ◌&&◌, ◌||◌, not, List, [], ◌∷◌, Option, none,
  some, arith, ltb, ◌==◌, if◌then◌else◌, All,
}
use flutter_embedder_wayland.Base.Chain.{◌>>=◌}
use flutter_embedder_wayland.Base.Bits.{
  test_bit, test_bit-or, test_bit-zero, test_bit-pow, bit_and-pow,
}

-- The names that are looked up in the keymap.
pub data ModName : Type 0 where
  caps ctrl shift alt num logo mod3 mod5 super hyper meta : ModName

-- The bits of `GdkModifierType` (gdk/gdktypes.h), of which a mask is `1 << bit`.
pub data GdkMask : Type 0 where
  shift_mask lock_mask control_mask mod1_mask mod2_mask mod3_mask mod4_mask mod5_mask super_mask
        hyper_mask meta_mask :
      GdkMask

abbrev pub gdk_bit : GdkMask → ℕ
gdk_bit shift_mask = 0
gdk_bit lock_mask = 1
gdk_bit control_mask = 2
gdk_bit mod1_mask = 3
gdk_bit mod2_mask = 4
gdk_bit mod3_mask = 5
gdk_bit mod4_mask = 6
gdk_bit mod5_mask = 7
gdk_bit super_mask = 26
gdk_bit hyper_mask = 27
gdk_bit meta_mask = 28

-- The static table of `toGDKModifiers`.
abbrev pub table : List (ModName × GdkMask)
table =
    (caps, lock_mask)
    ∷ (ctrl, control_mask)
    ∷ (shift, shift_mask)
    ∷ (alt, mod1_mask)
    ∷ (num, mod2_mask)
    ∷ (logo, mod4_mask)
    ∷ (mod3, mod3_mask)
    ∷ (mod5, mod5_mask)
    ∷ (super, super_mask)
    ∷ (hyper, hyper_mask)
    ∷ []

-- `1 << index` in a 32-bit `int`. A shift by 32 or more is undefined in C++: `none`.
unfoldable pub shift_one : ℕ → Option ℕ
shift_one index = if ltb index 32 then some (2 ^ index) else none

test_bit-set_if :
    (b : Bool) (s j k : ℕ)
    → test_bit (if b then bit_or s (2 ^ j) else s) k ≡ (test_bit s k || (j == k && b))
test_bit-set_if true s j k = test_bit-or s (2 ^ j) k ∙ rw (test_bit-pow j k) (ground arith)
test_bit-set_if false s j k = ground arith

or_assoc : (a b c : Bool) → ((a || b) || c) ≡ (a || (b || c))
or_assoc a b c = ground arith

table_in_range :
    (index : ModName → ℕ)
    → ((name : ModName) → index name < 32)
    → All (λ row. index row.0 < 32) table
table_in_range index h =
    ground (arith, h caps, h ctrl, h shift, h alt, h num, h logo, h mod3, h mod5, h super, h hyper)

module _ (index : ModName → ℕ) (mods : ℕ) where
  -- `mods & (1 << xkb_keymap_mod_get_index(keymap, name))` as a condition. `index` is the lookup in
  -- the keymap; for a name that the keymap does not have it returns XKB_MOD_INVALID, 2 ^ 32 - 1.
  unfoldable pub has_modifier : ModName → Option Bool
  unfolding shift_one
  has_modifier name = do mask ← shift_one (index name); some (not (bit_and mods mask == 0))

  -- The loop over the table.
  unfoldable pub scan_table : List (ModName × GdkMask) → ℕ → Option ℕ
  scan_table [] state = some state
  scan_table ((name, mask) ∷ rest) state = has_modifier name >>= λ has.
      scan_table rest (if has then bit_or state (2 ^ gdk_bit mask) else state)

  unfoldable pub to_gdk_modifiers : Option ℕ
  to_gdk_modifiers = do
    state ← scan_table table 0
    has_meta ← has_modifier meta
    some (
        if has_meta && bit_and state (2 ^ gdk_bit mod1_mask) == 0
        then bit_or state (2 ^ gdk_bit meta_mask)
        else state)

  abbrev pub any {ℓ} : {A : Type ℓ} → (A → Bool) → List A → Bool
  any p [] = false
  any p (x ∷ xs) = p x || any p xs

  -- Some row of the table for bit `k` names a modifier that is on.
  abbrev in_table : List (ModName × GdkMask) → ℕ → Bool
  in_table [] k = false
  in_table ((name, mask) ∷ rest) k =
      (gdk_bit mask == k && test_bit mods (index name)) || in_table rest k

  has_modifier_lem :
      (name : ModName) → index name < 32 → has_modifier name ≡ some (test_bit mods (index name))
  unfolding has_modifier
  has_modifier_lem name h = ground (arith, bit_and-pow mods (index name))

  scan_table_lem :
      (rows : List (ModName × GdkMask)) (state : ℕ)
      → All (λ row. index row.0 < 32) rows
      → (r : ℕ) × (scan_table rows state ≡ some r)
        × ((k : ℕ) → test_bit r k ≡ (test_bit state k || in_table rows k))
  unfolding scan_table
  scan_table_lem [] state h = (state, refl, λ k. ground arith)
  scan_table_lem ((name, mask) ∷ rest) state h =
      let on = test_bit mods (index name) in
      let (r, e, bits) =
        scan_table_lem rest (if on then bit_or state (2 ^ gdk_bit mask) else state) h.1 in
      (
        r,
        rw (has_modifier_lem name h.0) e,
        λ k.
            bits k
            ∙ rw (test_bit-set_if on state (gdk_bit mask) k)
                (or_assoc (test_bit state k) (gdk_bit mask == k && on) (in_table rest k)),
      )

-- Which GDK bits stand for the modifiers that are on: a bit of the table if its modifier is on, and
-- the bit of Meta if Meta is on and Alt is not.
abbrev pub expected : (ModName → ℕ) → ℕ → ℕ → Bool
expected index mods k =
    in_table index mods table k
    || (gdk_bit meta_mask == k && (test_bit mods (index meta) && not (test_bit mods (index alt))))

-- If the keymap has all the modifiers, `toGDKModifiers` shifts by less than the width of a word, and
-- each bit of its result is as expected.
pub to_gdk_modifiers_lem :
    (index : ModName → ℕ) (mods : ℕ)
    → ((name : ModName) → index name < 32)
    → (r : ℕ) × (to_gdk_modifiers index mods ≡ some r)
      × ((k : ℕ) → test_bit r k ≡ expected index mods k)
unfolding to_gdk_modifiers
to_gdk_modifiers_lem index mods h =
    let (s, e, bits) = scan_table_lem index mods table 0 (table_in_range index h) in
    let has_meta = test_bit mods (index meta) in
    let in_s : (k : ℕ) → test_bit s k ≡ in_table index mods table k =
      λ k. bits k ∙ rw (test_bit-zero k) refl in
    let alt_in_s : test_bit s 3 ≡ test_bit mods (index alt) = in_s 3 ∙ ground arith in
    let add = has_meta && (bit_and s (2 ^ 3) == 0) in
    (
      (if add then bit_or s (2 ^ 28) else s),
      rw (e, has_modifier_lem index mods meta (h meta)) refl,
      λ k. test_bit-set_if add s 28 k ∙ rw (in_s k, bit_and-pow s 3, alt_in_s) refl,
    )
