-- ===== src/Bit.antt =====
-- src/bit_util.c: counting, testing and changing the bits of an `int`. A shift by 32 or more, which C
-- leaves undefined, is not given a meaning: the theorems are on the bits 0 to 31.
pub mod Count
pub mod Digits
pub mod Test
use phase1_myunivos.Base.{
  Outcome, halt, if◌then◌else◌, inc, is_negative, minus_one, ok, out_of_fuel, sign_bit, suc, wrap,
  zero, ℕ, ◌%◌, ◌+◌, ◌-◌, ◌/◌, ◌==◌, ◌^◌,
}
use Prim.Native.Nat.{bit_and, bit_or, bit_xor}

-- `x >> 1` of an `int`, which keeps its sign.
abbrev pub half : ℕ → ℕ
half x = if is_negative x then x / 2 + sign_bit else x / 2

-- `x >> n`
unfoldable pub shift_right : ℕ → ℕ → ℕ
shift_right zero x = x
shift_right (suc n) x = shift_right n (half x)

-- `1 << n`
abbrev pub one_shifted : ℕ → ℕ
one_shifted n = wrap (2 ^ n)

-- The loop of `bit_count`, with fuel.
unfoldable pub count_loop : ℕ → ℕ → ℕ → Outcome ℕ
count_loop zero value count = halt out_of_fuel
count_loop (suc f) value count =
    let rest = count_loop f (half value) (if value % 2 == 0 then count else inc count) in
    if value == 0 then ok count else rest

-- Fuel for a round for each digit of an `int` that is not negative, and the last one.
unfoldable pub bit_count : ℕ → Outcome ℕ
bit_count value = count_loop 32 value 0

unfoldable pub bit_test : ℕ → ℕ → ℕ
bit_test value bit = shift_right bit value % 2

unfoldable pub bit_set : ℕ → ℕ → ℕ
bit_set value bit = bit_or (one_shifted bit) value

unfoldable pub bit_clear : ℕ → ℕ → ℕ
bit_clear value bit = bit_and value (minus_one - one_shifted bit)

unfoldable pub bit_toggle : ℕ → ℕ → ℕ
bit_toggle value bit = bit_xor value (one_shifted bit)
