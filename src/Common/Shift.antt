-- ===== src/Common/Shift.antt =====
-- Go's shifts of an int64, and the bits that the mask `^(int64(-1) << k)` leaves of one.
use heli.Common.Int.{ℤ, pos, negsuc, ◌*ℤ◌, wrap64}
use heli.Common.Tests.{leb, if◌then◌else◌}
use Prim.Native.Nat.{ℕ, ◌-◌, ◌/◌, ◌%◌, ◌^◌}

-- `a << k`
unfoldable pub shl64 : ℤ → ℕ → ℤ
shl64 a k = wrap64 (a *ℤ pos (2 ^ k))

-- `a >> k`, which rounds down.
unfoldable pub shr64 : ℤ → ℕ → ℤ
shr64 (pos n) k = pos (n / 2 ^ k)
shr64 (negsuc n) k = negsuc (n / 2 ^ k)

-- `^(int64(-1) << k)`: with 64 bits or more nothing is left of the -1.
unfoldable pub mask64 : ℕ → ℤ
mask64 k = if leb 64 k then negsuc 0 else pos (2 ^ k - 1)

abbrev low_bits : ℤ → ℕ → ℤ
low_bits (pos n) k = pos (n % 2 ^ k)
low_bits (negsuc n) k = pos (2 ^ k - 1 - n % 2 ^ k)

-- `a & ^(int64(-1) << k)`
unfoldable pub masked64 : ℤ → ℕ → ℤ
masked64 a k = if leb 64 k then a else low_bits a k
