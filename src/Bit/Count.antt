-- ===== src/Bit/Count.antt =====
-- What `bit_count` of src/bit_util.c counts, and where it does not end.
use phase1_myunivos.Base.{
  ap, arith, equal_or_not, false, halt, if◌then◌else◌, inc, inl, inr, ok, out_of_fuel, refl,
  sign_bit, suc, true, word_size, zero, ℕ, ◌%◌, ◌+◌, ◌/◌, ◌<◌, ◌==◌, ◌^◌, ◌∙◌, ◌≡◌, ◌≤◌,
}
use phase1_myunivos.Bit.{bit_count, count_loop, half}
use phase1_myunivos.Bit.Digits.{digit, digit-zero}

-- The number of ones among the first digits of `x`, as many as given.
unfoldable pub ones : ℕ → ℕ → ℕ
ones zero x = 0
ones (suc n) x = ones n x + digit n x

ones-half : (n x : ℕ) → ones (suc n) x ≡ x % 2 + ones n (x / 2)
unfolding ones digit
ones-half zero x = omega arith
ones-half (suc n) x = omega (arith, ones-half n x)

ones-zero : (n : ℕ) → ones n 0 ≡ 0
unfolding ones
ones-zero zero = refl
ones-zero (suc n) = omega (arith, ones-zero n, digit-zero n)

count_lem :
    (n value count : ℕ)
    → value < 2 ^ n
    → value < sign_bit
    → count + n ≤ 31
    → count_loop (suc n) value count ≡ ok (count + ones n value)
unfolding count_loop
count_lem zero value count small pos room =
    let z : (value == 0) ≡ true = ground arith in rw z (unfold ones in ap ok (omega arith))
count_lem (suc n) value count small pos room = elim (equal_or_not value 0) [
  | inl e ↦ rw e (ap ok (omega (arith, ones-zero (suc n))))
  | inr ne ↦
      let nz : (value == 0) ≡ false = ground arith in
      let h : half value ≡ value / 2 = ground arith in
      let c : (if value % 2 == 0 then count else inc count) ≡ count + value % 2 = ground arith in
      rw (nz, h, c)
        (count_lem n (value / 2) (count + value % 2) (omega arith) (omega arith) (omega arith)
          ∙ ap ok (omega (arith, ones-half n value)))
]

-- `bit_count` of an `int` that is not negative returns, within 32 rounds, the number of ones among its
-- digits.
bit_count-ones : (value : ℕ) → value < sign_bit → bit_count value ≡ ok (ones 31 value)
unfolding bit_count
bit_count-ones value pos =
    count_lem 31 value 0 (omega arith) pos (omega arith) ∙ ap ok (omega arith)

-- For a negative `int` the loop of `bit_count` has no end, whatever the fuel: the shift keeps the sign.
pub bit_count_endless :
    (f value count : ℕ)
    → sign_bit ≤ value
    → value < word_size
    → count_loop f value count ≡ halt out_of_fuel
unfolding count_loop
bit_count_endless zero value count neg small = refl
bit_count_endless (suc f) value count neg small =
    let nz : (value == 0) ≡ false = ground arith in
    rw nz (bit_count_endless f (half value) _ (ground arith) (ground arith))
