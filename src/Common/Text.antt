-- ===== src/Common/Text.antt =====
-- `strings.Count` and the first part of `strings.SplitN` of Go, for a single character.
use Prim.Native.Nat.{ℕ, suc}
use Prim.Native.Char.{code}
use Prim.Native.String.{String, [], ◌∷◌}
use heli.Common.Tests.{◌==◌, if◌then◌else◌}

-- How often the character of the given number stands in a text.
unfoldable pub count_char : ℕ → String → ℕ
count_char n [] = 0
count_char n (c ∷ s) = let rest = count_char n s in if code c == n then suc rest else rest

-- What stands before the first such character, or the whole text.
unfoldable pub before_char : ℕ → String → String
before_char n [] = []
before_char n (c ∷ s) = let rest = before_char n s in if code c == n then [] else c ∷ rest
