-- ===== src/Bit/Test.antt =====
-- `bit_test` of src/bit_util.c after the three functions that change a bit.
use phase1_myunivos.Base.{
  Bool, Bool-cases, ap, arith, false, if◌then◌else◌, inl, inr, is_negative, ltb, minus_one, refl,
  suc, true, word_size, zero, ℕ, ◌%◌, ◌+◌, ◌-◌, ◌/◌, ◌<◌, ◌==◌, ◌^◌, ◌∙◌, ◌≡◌, ◌≤◌,
}
use phase1_myunivos.Base.Table.{all_below, all_below_sound}
use phase1_myunivos.Bit.{bit_clear, bit_set, bit_test, bit_toggle, half, one_shifted, shift_right}
use phase1_myunivos.Bit.Digits.{
  digit, digit-bit_and, digit-bit_or, digit-bit_xor, digit-zero, digit_le,
}
use Prim.Native.Nat.{differ, max, min}

-- The digits below `n` are the same.
abbrev SameBelow : ℕ → ℕ → ℕ → Type 0
SameBelow n x y = (k : ℕ) → k < n → digit k x ≡ digit k y

digit-plus : (n x k : ℕ) → k < n → digit k (x + 2 ^ n) ≡ digit k x
unfolding digit
digit-plus zero x k lt = absurd (omega arith)
digit-plus (suc n) x zero lt = omega arith
digit-plus (suc n) x (suc k) lt = ap (digit k) (omega arith) ∙ digit-plus n (x / 2) k (omega arith)

half-SameBelow : (x : ℕ) → SameBelow 31 (half x) (x / 2)
half-SameBelow x k lt = elim (Bool-cases (is_negative x)) [
  | inl neg ↦ rw neg (digit-plus 31 (x / 2) k lt)
  | inr pos ↦ rw pos refl
]

shift-digit : (b m x y : ℕ) → b < m → m ≤ 32 → SameBelow m x y → shift_right b x % 2 ≡ digit b y
unfolding shift_right digit
shift-digit zero m x y lt le same = same 0 lt
shift-digit (suc b) zero x y lt le same = absurd (omega arith)
shift-digit (suc b) (suc m) x y lt le same =
    shift-digit b m (half x) (y / 2) (omega arith) (omega arith)
      (λ k h. half-SameBelow x k (omega arith) ∙ same (suc k) (omega arith))

-- `bit_test` of a bit of an `int` is the digit, of a negative one too.
bit_test-digit : (x b : ℕ) → b < 32 → bit_test x b ≡ digit b x
unfolding bit_test
bit_test-digit x b lt = shift-digit b 32 x x lt (omega arith) (λ k h. refl)

digit-pow : (b c : ℕ) → digit c (2 ^ b) ≡ (if c == b then 1 else 0)
unfolding digit
digit-pow zero zero = omega arith
digit-pow zero (suc c) = digit-zero c ∙ ground arith
digit-pow (suc b) zero = ground arith
digit-pow (suc b) (suc c) = ap (digit c) (omega arith) ∙ digit-pow b c ∙ ground arith

digit-complement : (n c x : ℕ) → c < n → x < 2 ^ n → digit c (2 ^ n - 1 - x) ≡ 1 - digit c x
unfolding digit
digit-complement zero c x lt small = absurd (omega arith)
digit-complement (suc n) zero x lt small = omega arith
digit-complement (suc n) (suc c) x lt small =
    ap (digit c) (omega arith) ∙ digit-complement n c (x / 2) (omega arith) (omega arith)

pow_table : all_below 32 (λ b. ltb (2 ^ b) word_size) ≡ true
unfolding all_below
pow_table = refl

one_shifted-pow : (b : ℕ) → b < 32 → (one_shifted b ≡ 2 ^ b) × (2 ^ b < word_size)
one_shifted-pow b lt =
    let h = all_below_sound 32 (λ b. ltb (2 ^ b) word_size) b pow_table lt in
    let small : 2 ^ b < word_size = ground (arith, h) in (omega arith, small)

-- The digits of the two masks.
mask_digits :
    (b c : ℕ)
    → b < 32
    → c < 32
    → (digit c (one_shifted b) ≡ (if c == b then 1 else 0))
      × (digit c (minus_one - one_shifted b) ≡ (if c == b then 0 else 1))
mask_digits b c hb hc =
    let (e, small) = one_shifted-pow b hb in
    rw e (
      digit-pow b c,
      digit-complement 32 c (2 ^ b) hc small ∙ ap (λ d. 1 - d) (digit-pow b c) ∙ ground arith,
    )

-- A digit `d` with a digit of the mask, by whether the mask has a 1 there.
set_digit : (t : Bool) (m d : ℕ) → d ≤ 1 → m ≡ (if t then 1 else 0) → max m d ≡ (if t then 1 else d)
set_digit true m d low e = omega arith
set_digit false m d low e = omega arith

clear_digit :
    (t : Bool) (m d : ℕ) → d ≤ 1 → m ≡ (if t then 0 else 1) → min d m ≡ (if t then 0 else d)
clear_digit true m d low e = omega arith
clear_digit false m d low e = omega arith

toggle_digit :
    (t : Bool) (m d : ℕ) → d ≤ 1 → m ≡ (if t then 1 else 0) → differ d m ≡ (if t then 1 - d else d)
toggle_digit true m zero low e = e
toggle_digit true m (suc zero) low e = ap (differ 1) e
toggle_digit t m (suc (suc d)) low e = absurd (omega arith)
toggle_digit false m zero low e = e
toggle_digit false m (suc zero) low e = ap (differ 1) e

-- After `bit_set`, `bit_clear` and `bit_toggle` of one of the 32 bits of an `int`, `bit_test` finds this
-- bit to be 1, to be 0, and to be the other of the two, and every other bit as before.
bit_test_after :
    (x b c : ℕ)
    → b < 32
    → c < 32
    → (bit_test (bit_set x b) c ≡ (if c == b then 1 else bit_test x c))
      × (bit_test (bit_clear x b) c ≡ (if c == b then 0 else bit_test x c))
      × (bit_test (bit_toggle x b) c ≡ (if c == b then 1 - bit_test x c else bit_test x c))
unfolding bit_set bit_clear bit_toggle
bit_test_after x b c hb hc =
    let (on, off) = mask_digits b c hb hc in
    let old = bit_test-digit x c hc in
    let low = digit_le c x in
    (
      bit_test-digit _ c hc
          ∙ digit-bit_or c (one_shifted b) x
          ∙ rw old (set_digit (c == b) _ _ low on),
      bit_test-digit _ c hc
          ∙ digit-bit_and c x (minus_one - one_shifted b)
          ∙ rw old (clear_digit (c == b) _ _ low off),
      bit_test-digit _ c hc
          ∙ digit-bit_xor c x (one_shifted b)
          ∙ rw old (toggle_digit (c == b) _ _ low on),
    )
