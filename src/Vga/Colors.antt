-- ===== src/Vga/Colors.antt =====
-- The cells that VGA_CHAR of include/vga.h makes.
use phase1_myunivos.Base.{arith, ℕ, ◌==◌, ◌≡◌, ◌<◌, ◌+◌, ◌*◌, true, sign_extend, refl}
use phase1_myunivos.Base.Table.{all_below, all_below_sound}
use phase1_myunivos.Vga.{vga_char}
use Prim.Native.Nat.{bit_and, bit_or}

fg_bits : all_below 16 (λ x. bit_and x 0xf == x) ≡ true
unfolding all_below
fg_bits = refl

bg_bits : all_below 8 (λ x. bit_and x 0x7 == x) ≡ true
unfolding all_below
bg_bits = refl

color_bits : all_below 8 (λ b. all_below 16 (λ f. bit_or (b * 16) f == b * 16 + f)) ≡ true
unfolding all_below
color_bits = refl

-- The character in the low byte of a cell, the colors in the other.
byte_bits : all_below 128 (λ a. all_below 128 (λ c. bit_or (a * 256) c == a * 256 + c)) ≡ true
unfolding all_below
byte_bits = refl

-- The test of one entry of a table.
entry : (n : ℕ) (f g : ℕ → ℕ) (x : ℕ) → all_below n (λ x. f x == g x) ≡ true → x < n → f x ≡ g x
entry n f g x h lt =
    let e : (f x == g x) ≡ true = all_below_sound n (λ x. f x == g x) x h lt in ground arith

pub bit_and-fg : (fg : ℕ) → fg < 16 → bit_and fg 0xf ≡ fg
bit_and-fg fg lt = entry 16 (λ x. bit_and x 0xf) (λ x. x) fg fg_bits lt

pub bit_and-bg : (bg : ℕ) → bg < 8 → bit_and bg 0x7 ≡ bg
bit_and-bg bg lt = entry 8 (λ x. bit_and x 0x7) (λ x. x) bg bg_bits lt

bit_or-colors : (bg fg : ℕ) → bg < 8 → fg < 16 → bit_or (bg * 16) fg ≡ bg * 16 + fg
bit_or-colors bg fg hb hf =
    entry 16 (λ f. bit_or (bg * 16) f) (λ f. bg * 16 + f) fg
      (all_below_sound 8 (λ b. all_below 16 (λ f. bit_or (b * 16) f == b * 16 + f)) bg color_bits
        hb)
      hf

bit_or-byte : (a c : ℕ) → a < 128 → c < 128 → bit_or (a * 256) c ≡ a * 256 + c
bit_or-byte a c ha hc =
    entry 128 (λ c. bit_or (a * 256) c) (λ c. a * 256 + c) c
      (all_below_sound 128 (λ a. all_below 128 (λ c. bit_or (a * 256) c == a * 256 + c)) a byte_bits
        ha)
      hc

-- VGA_CHAR of a character below 0x80 and a background below 8: the background in the bits from 12 on,
-- the foreground in those from 8 on, and the character.
pub vga_char_lem :
    (bg fg c : ℕ) → bg < 8 → fg < 16 → c < 128 → vga_char bg fg c ≡ (bg * 16 + fg) * 256 + c
unfolding vga_char
vga_char_lem bg fg c hb hf hc =
    let b : bit_and bg 0xf ≡ bg = bit_and-fg bg (omega arith) in
    let f : bit_and fg 0xf ≡ fg = bit_and-fg fg hf in
    let s : sign_extend c ≡ c = ground arith in
    rw (b, f, b, f, s, bit_or-colors bg fg hb hf, bit_or-byte (bg * 16 + fg) c (omega arith) hc)
      (omega arith)
