-- ===== src/Prelude/Int.antt =====
-- Integers over the native numbers, and the two's complement of a word.
use Prim.Native.Nat.{ℕ, ◌+◌, ◌-◌, ◌^◌}
use geberit_aquaclean.Prelude.Tests.{ltb, if◌then◌else◌}

-- `negsuc n` is -(n + 1).
pub data ℤ : Type 0 where
  pos : ℕ → ℤ
  negsuc : ℕ → ℤ

-- The signed reading of `w`, a word of `k + 1` bits.
unfoldable pub to_signed : ℕ → ℕ → ℤ
to_signed k w = if ltb w (2 ^ k) then pos w else negsuc (2 ^ (k + 1) - 1 - w)
