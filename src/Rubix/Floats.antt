-- ===== src/Rubix/Floats.antt =====
-- The float operations that the decoders use. Floats are a parameter: the code relies on no law of
-- theirs but those that a theorem names. `int` values outside ±2 ^ 53 do not occur.
use module_core_loraraw.Prelude.{ℕ, Bool}
use module_core_loraraw.Prelude.Int.{ℤ}

pub record Floats : Type 1 where
  pub F64 : Type 0
  pub F32 : Type 0
  pub widen : F32 → F64
  pub narrow : F64 → F32
  pub of_int : ℤ → F64
  pub of_uint : ℕ → F64
  pub lt : F64 → F64 → Bool
  -- x <= y, false where one is not a number
  pub le : F64 → F64 → Bool
  pub sub64 : F64 → F64 → F64
  pub sub32 : F32 → F32 → F32
  pub add64 : F64 → F64 → F64
  pub mul64 : F64 → F64 → F64
  pub div64 : F64 → F64 → F64
  pub mul32 : F32 → F32 → F32
  pub div32 : F32 → F32 → F32
  -- math.Pow10, math.Round and uint64(x)
  pub pow10 : ℕ → F64
  pub round : F64 → F64
  pub to_u64 : F64 → ℕ
  -- uintN(x) and intN(x), as the bit pattern of N bits
  pub to_uint : ℕ → F64 → ℕ
  pub to_int : ℕ → F64 → ℕ
  -- the memory of a float, as a number, and back
  pub bits64 : F64 → ℕ
  pub bits32 : F32 → ℕ
  pub of_bits32 : ℕ → F32
