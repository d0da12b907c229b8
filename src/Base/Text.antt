-- ===== src/Base/Text.antt =====
-- The arguments of `printf` and its kind in the host library: an `int`, or a string as the list of its
-- characters. What these functions make of a format and its arguments is a parameter of the model.
use Prim.Native.Nat.{ℕ}
use mathlib.Core.List.{List}

pub data Arg : Type 0 where
  int : ℕ → Arg
  str : List ℕ → Arg
