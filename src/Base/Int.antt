-- ===== src/Base/Int.antt =====
-- C's signed results: a count, or a negative error number.
use Prim.Native.Nat.{ℕ, ◌-◌, ◌%◌, ◌^◌, ◌<◌}
use mathlib.Core.Bool.{Bool, true, false}
use mathlib.Core.Path.{◌≡◌}
use native.Mathlib.Omega.{arith}
use dedup_block_fs.Base.Tests.{ltb, if◌then◌else◌}

-- `negsuc n` is -(n + 1).
pub data ℤ : Type 0 where
  pos : ℕ → ℤ
  negsuc : ℕ → ℤ

abbrev pub is_neg : ℤ → Bool
is_neg (pos n) = false
is_neg (negsuc n) = true

-- `(int)x` of an unsigned 64-bit x: the low 32 bits, read in two's complement.
unfoldable pub to_int : ℕ → ℤ
to_int x = let r = x % 2 ^ 32 in if ltb r (2 ^ 31) then pos r else negsuc (2 ^ 32 - r - 1)

pub to_int-pos : (x : ℕ) → x < 2 ^ 31 → to_int x ≡ pos x
unfolding to_int
to_int-pos x h = ground arith
