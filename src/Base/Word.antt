-- ===== src/Base/Word.antt =====
-- 32-bit machine words. An `int`, an `unsigned int` and a `size_t` are all the bit pattern, a number
-- below 2 ^ 32; the casts between them change nothing. Arithmetic wraps, and a comparison of two
-- `int`s reads the patterns as two's complement.
use Prim.Native.Nat.{ℕ, ◌+◌, ◌-◌, ◌%◌}
use mathlib.Core.Bool.{Bool, ◌||◌}
use phase1_myunivos.Base.Tests.{ltb, leb, if◌then◌else◌}

abbrev pub word_size : ℕ
word_size = 4294967296

-- 2 ^ 31: the first pattern that is negative as an `int`.
abbrev pub sign_bit : ℕ
sign_bit = 2147483648

abbrev pub wrap : ℕ → ℕ
wrap n = n % word_size

-- `x++`, `x--`
abbrev pub inc : ℕ → ℕ
inc x = wrap (x + 1)

abbrev pub dec : ℕ → ℕ
dec x = wrap (x + 4294967295)

-- The pattern of -1, the error code of most functions.
abbrev pub minus_one : ℕ
minus_one = 4294967295

-- `x < 0`
abbrev pub is_negative : ℕ → Bool
is_negative x = leb sign_bit x

-- `a < b` and `a <= b` between two `int`s.
abbrev pub slt : ℕ → ℕ → Bool
slt a b = ltb (wrap (a + sign_bit)) (wrap (b + sign_bit))

abbrev pub sle : ℕ → ℕ → Bool
sle a b = leb (wrap (a + sign_bit)) (wrap (b + sign_bit))

-- `i < 0 || i >= n`
abbrev pub out_of_range : ℕ → ℕ → Bool
out_of_range i n = is_negative i || sle n i

-- A `char` read into an `unsigned int`.
abbrev pub sign_extend : ℕ → ℕ
sign_extend b = if leb 0x80 b then b + 0xffffff00 else b

-- `4 - x % 4` of an `int`, whose remainder has its sign.
abbrev pub to_stop : ℕ → ℕ
to_stop x = if is_negative x then 4 + (word_size - x) % 4 else 4 - x % 4
