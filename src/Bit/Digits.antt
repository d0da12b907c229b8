-- ===== src/Bit/Digits.antt =====
-- The binary digits of a number, and what the operations on digits do to each.
use phase1_myunivos.Base.{ap, arith, refl, suc, sym, zero, ℕ, ◌%◌, ◌*◌, ◌+◌, ◌/◌, ◌∙◌, ◌≡◌, ◌≤◌}
use Prim.Native.Nat.{
  bit_and, bit_and-bitwise, bit_or, bit_or-bitwise, bit_xor, bit_xor-bitwise, bitwise, differ,
  digits, max, min,
}

-- The digit `k` of a number.
unfoldable pub digit : ℕ → ℕ → ℕ
digit zero x = x % 2
digit (suc k) x = digit k (x / 2)

pub digit_le : (k x : ℕ) → digit k x ≤ 1
unfolding digit
digit_le zero x = omega arith
digit_le (suc k) x = digit_le k (x / 2)

-- An operation on numbers from one on digits, with the result `z b` of 0 and `b`.
module _ (z : ℕ → ℕ) (f : ℕ → ℕ → ℕ) (zero_step : (b : ℕ) → z b ≡ z (b / 2) * 2 + f 0 (b % 2))
    (f_le : (a b : ℕ) → a ≤ 1 → b ≤ 1 → f a b ≤ 1) where
  digits-zero : (n b : ℕ) → digits z f n 0 b ≡ z b
  digits-zero zero b = refl
  digits-zero (suc n) b = refl

  -- Any count of digits that is large enough serves.
  digits_enough : (n m a b : ℕ) → a ≤ n → a ≤ m → digits z f n a b ≡ digits z f m a b
  digits_enough n m zero b p q = digits-zero n b ∙ sym (digits-zero m b)
  digits_enough zero m (suc a) b p q = absurd (omega arith)
  digits_enough (suc n) zero (suc a) b p q = absurd (omega arith)
  digits_enough (suc n) (suc m) (suc a) b p q =
      ap (λ r. r * 2 + f (suc a % 2) (b % 2))
        (digits_enough n m (suc a / 2) (b / 2) (omega arith) (omega arith))

  -- The law for the lowest digit.
  bitwise_step : (a b : ℕ) → bitwise z f a b ≡ bitwise z f (a / 2) (b / 2) * 2 + f (a % 2) (b % 2)
  bitwise_step zero b = zero_step b
  bitwise_step (suc a) b =
      ap (λ r. r * 2 + f (suc a % 2) (b % 2))
        (digits_enough a (suc a / 2) (suc a / 2) (b / 2) (omega arith) (omega arith))

  pub digit-bitwise : (k a b : ℕ) → digit k (bitwise z f a b) ≡ f (digit k a) (digit k b)
  unfolding digit
  digit-bitwise zero a b =
      omega (arith, bitwise_step a b, f_le (a % 2) (b % 2) (omega arith) (omega arith))
  digit-bitwise (suc k) a b =
      ap (digit k)
        (omega (arith, bitwise_step a b, f_le (a % 2) (b % 2) (omega arith) (omega arith)))
      ∙ digit-bitwise k (a / 2) (b / 2)

differ_le : (a b : ℕ) → a ≤ 1 → b ≤ 1 → differ a b ≤ 1
differ_le zero b p q = q
differ_le (suc a) zero p q = p
differ_le (suc zero) (suc zero) p q = omega arith
differ_le (suc zero) (suc (suc b)) p q = absurd (omega arith)
differ_le (suc (suc a)) (suc b) p q = absurd (omega arith)

pub digit-bit_and : (k a b : ℕ) → digit k (bit_and a b) ≡ min (digit k a) (digit k b)
digit-bit_and k a b =
    ap (digit k) (bit_and-bitwise a b)
    ∙ digit-bitwise (λ b. zero) min (λ b. omega arith) (λ a b p q. omega arith) k a b

pub digit-bit_or : (k a b : ℕ) → digit k (bit_or a b) ≡ max (digit k a) (digit k b)
digit-bit_or k a b =
    ap (digit k) (bit_or-bitwise a b)
    ∙ digit-bitwise (λ b. b) max (λ b. omega arith) (λ a b p q. omega arith) k a b

pub digit-bit_xor : (k a b : ℕ) → digit k (bit_xor a b) ≡ differ (digit k a) (digit k b)
digit-bit_xor k a b =
    ap (digit k) (bit_xor-bitwise a b)
    ∙ digit-bitwise (λ b. b) differ (λ b. omega arith) differ_le k a b

pub digit-zero : (k : ℕ) → digit k 0 ≡ 0
unfolding digit
digit-zero zero = refl
digit-zero (suc k) = digit-zero k
