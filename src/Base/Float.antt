-- ===== src/Base/Float.antt =====
-- Go's float64 by its bit pattern. Arithmetic and comparison are the processor's: they are
-- parameters of the definitions that use them.
use Prim.Native.Nat.{ℕ}
use mathlib.Core.Bool.{Bool}
use open_research_agent.Base.Int.{ℤ}

abbrev pub Float64 : Type 0
Float64 = ℕ

pub record FloatOps : Type 0 where
  pub add : Float64 → Float64 → Float64
  pub sub : Float64 → Float64 → Float64
  pub mul : Float64 → Float64 → Float64
  pub div : Float64 → Float64 → Float64
  pub lt : Float64 → Float64 → Bool
  pub of_int : ℤ → Float64

-- The IEEE 754 patterns of the constants that the source writes.
abbrev pub float_zero : Float64
float_zero = 0x0

abbrev pub float_0_05 : Float64
float_0_05 = 0x3fa999999999999a

abbrev pub float_0_1 : Float64
float_0_1 = 0x3fb999999999999a

abbrev pub float_0_2 : Float64
float_0_2 = 0x3fc999999999999a

abbrev pub float_0_5 : Float64
float_0_5 = 0x3fe0000000000000

abbrev pub float_0_8 : Float64
float_0_8 = 0x3fe999999999999a

abbrev pub float_0_9 : Float64
float_0_9 = 0x3feccccccccccccd

abbrev pub float_0_95 : Float64
float_0_95 = 0x3fee666666666666

abbrev pub float_one : Float64
float_one = 0x3ff0000000000000

abbrev pub float_1_2 : Float64
float_1_2 = 0x3ff3333333333333

abbrev pub float_1_5 : Float64
float_1_5 = 0x3ff8000000000000

abbrev pub float_two : Float64
float_two = 0x4000000000000000

abbrev pub float_three : Float64
float_three = 0x4008000000000000

abbrev pub float_four : Float64
float_four = 0x4010000000000000

abbrev pub float_0_3 : Float64
float_0_3 = 0x3fd3333333333333

abbrev pub float_0_7 : Float64
float_0_7 = 0x3fe6666666666666

abbrev pub float_100 : Float64
float_100 = 0x4059000000000000

abbrev pub float_1000 : Float64
float_1000 = 0x408f400000000000

abbrev pub float_1e9 : Float64
float_1e9 = 0x41cdcd6500000000
