-- ===== src/Common/Decimal.antt =====
-- `%d` of Go's fmt.
use Prim.Native.Nat.{ℕ, zero, suc, ◌/◌, ◌%◌}
use Prim.Native.String.{String, slice, ◌++◌ as ◌+++◌}
use heli.Common.Tests.{ltb, if◌then◌else◌}
use heli.Common.Int.{ℤ, pos, negsuc}

-- The decimal digits of `%d`.
unfoldable pub digits : ℕ → ℕ → String
digits zero n = ""
digits (suc fuel) n =
    let front = digits fuel (n / 10) in
    if ltb n 10
    then slice "0123456789" n (suc n)
    else front +++ slice "0123456789" (n % 10) (suc (n % 10))

unfoldable pub show_int : ℤ → String
unfolding digits
show_int (pos n) = digits (suc n) n
show_int (negsuc n) = "-" +++ digits (suc (suc n)) (suc n)
