-- ===== src/Prelude/Int.antt =====
-- Signed integers over the native numbers, and the casts of Rust between i32 and usize.
use Prim.Native.Nat.{ℕ, ◌-◌, ◌%◌, ◌^◌, zero, suc}
use mathlib.Core.Option.{Option, none, some}
use rattler_build.Prelude.Tests.{ltb, ◌==◌, if◌then◌else◌}

-- `negsuc n` is -(n + 1).
pub data ℤ : Type 0 where
  pos : ℕ → ℤ
  negsuc : ℕ → ℤ

abbrev pub half_range : ℕ
half_range = 2 ^ 31

-- `x as i32` of a usize keeps the low 32 bits and reads them in two's complement.
unfoldable pub as_i32 : ℕ → ℤ
as_i32 n = let low = n % 2 ^ 32 in if ltb low half_range then pos low else negsuc (2 ^ 32 - 1 - low)

-- `x as usize` of an i32 extends the sign to 64 bits.
unfoldable pub as_usize : ℤ → ℕ
as_usize (pos n) = n
as_usize (negsuc n) = 2 ^ 64 - 1 - n

-- `x - 1` of an i32, or nothing where it overflows, at the least one.
unfoldable pub pred_i32 : ℤ → Option ℤ
pred_i32 (pos zero) = some (negsuc 0)
pred_i32 (pos (suc n)) = some (pos n)
pred_i32 (negsuc n) = if n == half_range - 1 then none else some (negsuc (suc n))
