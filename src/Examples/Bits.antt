-- ===== src/Examples/Bits.antt =====
-- Bits: the highest and the lowest of an `int`.
use phase1_myunivos.Base.{arith, halt, out_of_fuel, ◌≡◌}
use phase1_myunivos.Bit.{count_loop}
use phase1_myunivos.Bit.Count.{bit_count_endless}

bit_count_endless_example : count_loop 100 0xfffffff0 0 ≡ halt out_of_fuel
bit_count_endless_example = bit_count_endless 100 0xfffffff0 0 (omega arith) (omega arith)
