-- ===== src/Keyboard/Keys.antt =====
-- What `keyboard_decode` of src/keyboard.c makes of a key.
use phase1_myunivos.Base.{
  Bool, Outcome, arith, exited, false, get_or, halt, if◌then◌else◌, leb, not, ok, refl, subst, true,
  xor, ℕ, ◌&&◌, ◌+◌, ◌-◌, ◌<◌, ◌==◌, ◌||◌, ◌≡◌, ◌≢◌, ◌≤◌,
}
use phase1_myunivos.Base.Table.{all_below, all_below_sound}
use phase1_myunivos.Keyboard.{
  Action, Keyboard, has, key, key_null, key_pressed, keyboard_decode, map_key, mapped, status_alt,
  status_caps, status_ctrl, status_shift,
}
use phase1_myunivos.Keyboard.Maps.{keyboard_map_primary, keyboard_map_secondary}
use Prim.Native.Nat.{bit_and}

-- The scan codes from 128 on, read by the bits.
release_bits :
    all_below 128 (λ i. not (key_pressed (128 + i)) && (bit_and (128 + i) 0xffffff7f == i)) ≡ true
unfolding all_below
release_bits = refl

-- The call returned KEY_NULL, with no other action and the count of escapes as it was.
abbrev pub IsSilent : Keyboard → Outcome (Keyboard × Action) → Type 0
IsSilent k (ok (k', a)) = (a ≡ key_null) × (k'.esc_status ≡ k.esc_status)
IsSilent k (halt h) = ⊥

released : (c : ℕ) → 128 ≤ c → c < 256 → key_pressed c ≡ false
released c lo hi =
    let e : 128 + (c - 128) ≡ c = omega arith in
    let row = all_below_sound 128 _ (c - 128) release_bits (omega arith) in
    subst (λ i. key_pressed i ≡ false) e (not_true _ (and_left _ _ row))
  where
    and_left : (a b : Bool) → (a && b) ≡ true → a ≡ true
    and_left a b h = ground arith

    not_true : (a : Bool) → not a ≡ true → a ≡ false
    not_true a h = ground arith

-- The release of a key, a scan code from 128 to 255, whatever the key and the status:
-- `keyboard_decode` returns KEY_NULL, does nothing else, and leaves the count of escapes.
keyboard_decode_release :
    (c : ℕ) (k : Keyboard) → 128 ≤ c → c < 256 → IsSilent k (keyboard_decode c k)
unfolding keyboard_decode
keyboard_decode_release c k lo hi = rw (released c lo hi) (ground arith)

-- The scan codes below 128.
press_bits : all_below 128 (λ c. key_pressed c && (bit_and c 0xffffff7f == c)) ≡ true
unfolding all_below
press_bits = refl

pressed : (c : ℕ) → c < 128 → (key_pressed c ≡ true) × (bit_and c 0xffffff7f ≡ c)
pressed c lt = both _ _ _ (all_below_sound 128 _ c press_bits lt)
  where
    both : (a : Bool) (x y : ℕ) → (a && (x == y)) ≡ true → (a ≡ true) × (x ≡ y)
    both a x y h = ground arith

-- The keys that change the status: CTRL, ALT, the two of SHIFT, CAPS and NUMLOCK.
abbrev pub is_status_key : ℕ → Bool
is_status_key c = c == 0x1d || (c == 0x38 || (c == 0x2a || (c == 0x36 || (c == 0x3a || c == 0x45))))

-- A key that is pressed without CTRL and ALT and is mapped to a character, not to the escape key.
pub keyboard_decode_character :
    (c ch : ℕ) (k : Keyboard)
    → c < 128
    → is_status_key c ≡ false
    → has k.kbd_status status_ctrl ≡ false
    → has k.kbd_status status_alt ≡ false
    → map_key k.kbd_status c ≡ ch
    → ch ≢ 0
    → ch ≢ 0x1b
    → keyboard_decode c k ≡ ok (record k { esc_status = 0 }, key ch)
unfolding keyboard_decode mapped
keyboard_decode_character c ch k lt plain ctrl alt e nz ne =
    let (p, b) = pressed c lt in rw (p, b, e, ctrl, alt) (ground arith)

-- Where the first map has a small letter, the second has the same letter as a capital.
letters :
    all_below 128 (λ c.
      not (leb b'a' (get_or keyboard_map_primary c 0) && leb (get_or keyboard_map_primary c 0) b'z')
      || (get_or keyboard_map_secondary c 0 + 32 == get_or keyboard_map_primary c 0
          && not (leb 0x47 c && leb c 0x53)))
    ≡ true
unfolding all_below keyboard_map_primary keyboard_map_secondary
letters = refl

-- A key below 128 that is a small letter in the first map gives this letter while SHIFT and CAPS
-- are both on or both off, and the same letter as a capital otherwise, whatever the rest of the
-- status.
map_key_letter :
    (status c : ℕ)
    → c < 128
    → b'a' ≤ get_or keyboard_map_primary c 0
    → get_or keyboard_map_primary c 0 ≤ b'z'
    → map_key status c ≡ (
        if xor (has status status_shift) (has status status_caps)
        then get_or keyboard_map_primary c 0 - 32
        else get_or keyboard_map_primary c 0)
unfolding map_key
map_key_letter status c b lo hi = let row = all_below_sound 128 _ c letters b in ground arith

map_key_escape : (status : ℕ) → map_key status 1 ≡ 0x1b
unfolding map_key keyboard_map_primary keyboard_map_secondary
map_key_escape status = ground arith

-- The escape key, pressed: as the third press in a row it ends the kernel, and before that it only
-- counts.
keyboard_decode_escape :
    (k : Keyboard)
    → k.esc_status < 3
    → keyboard_decode 1 k ≡ (
        if k.esc_status == 2
        then halt exited
        else ok (record k { esc_status = k.esc_status + 1 }, key_null))
unfolding keyboard_decode mapped
keyboard_decode_escape k h = rw (map_key_escape k.kbd_status) (ground arith)
