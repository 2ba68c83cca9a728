-- ===== src/Base/Bits.antt =====
-- Single bits of an unsigned word, in the arithmetic form: `w & (1 << k)` is nonzero exactly if
-- `w / 2 ^ k` is odd, `w | (1 << k)` adds `2 ^ k` where the bit was low, and `w & ~(1 << k)`
-- subtracts it where the bit was high.
use Prim.Native.Nat.{ℕ, ◌+◌, ◌-◌, ◌/◌, ◌%◌, ◌^◌}
use mathlib.Core.Bool.{Bool}
use csc369_operating_systems.Base.Tests.{◌==◌, if◌then◌else◌}

abbrev pub has_bit : ℕ → ℕ → Bool
has_bit w k = w / 2 ^ k % 2 == 1

abbrev pub set_bit : ℕ → ℕ → ℕ
set_bit w k = if has_bit w k then w else w + 2 ^ k

abbrev pub clear_bit : ℕ → ℕ → ℕ
clear_bit w k = if has_bit w k then w - 2 ^ k else w
