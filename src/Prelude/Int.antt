-- ===== src/Prelude/Int.antt =====
-- Signed integers, and their conversion to 32 bits, for Go's `int32` and `int64` fields. `negsuc n` is -(n + 1).
use Prim.Native.Nat.{ℕ, ◌-◌, ◌%◌, ◌^◌, compare, Ordering}

pub data ℤ : Type 0 where
  pos : ℕ → ℤ
  negsuc : ℕ → ℤ

-- The 32 bits `n` as a two's complement.
abbrev signed_32 : ℕ → ℤ
signed_32 n = elim (compare n (2 ^ 31)) [ Ordering.lt ↦ pos n | _ ↦ negsuc (2 ^ 32 - 1 - n) ]

-- `int32(i)`: the lowest 32 bits.
unfoldable pub to_int32 : ℤ → ℤ
to_int32 (pos n) = signed_32 (n % 2 ^ 32)
to_int32 (negsuc n) = signed_32 (2 ^ 32 - 1 - n % 2 ^ 32)
