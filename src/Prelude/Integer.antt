-- ===== src/Prelude/Integer.antt =====
-- Integers, and the `int` and `unsigned int` that C makes of them.
use Prim.Native.Nat.{ℕ, ◌-◌, ◌%◌, ◌^◌}
use vyatta_cfg.Prelude.Tests.{ltb, if◌then◌else◌}

-- `negsuc n` is -(n + 1).
pub data ℤ : Type 0 where
  pos : ℕ → ℤ
  negsuc : ℕ → ℤ

-- The conversion to `unsigned int`.
unfoldable pub to_unsigned : ℤ → ℕ
to_unsigned (pos n) = n % 2 ^ 32
to_unsigned (negsuc n) = 2 ^ 32 - 1 - n % 2 ^ 32

-- The conversion to `int`.
unfoldable pub to_int : ℤ → ℤ
to_int z =
    let bits = to_unsigned z in if ltb bits (2 ^ 31) then pos bits else negsuc (2 ^ 32 - 1 - bits)
