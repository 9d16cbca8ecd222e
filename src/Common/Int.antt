-- ===== src/Common/Int.antt =====
-- Signed integers over the native numbers, and Go's `int64` and `int32` arithmetic on them: each
-- operation is the integer one followed by `wrap64` or `wrap32`.
use Prim.Native.Nat.{ℕ, suc, ◌+◌, ◌-◌, ◌*◌, ◌%◌, ◌^◌, ◌≤◌, ◌<◌}
use mathlib.Core.Path.{◌≡◌, ◌∙◌}
use mathlib.Core.Logic.{◌↔◌}
use mathlib.Core.Bool.{Bool, true, ◌&&◌}
use native.Mathlib.Omega.{arith}
use heli.Common.Tests.{ltb, leb, ◌==◌, if◌then◌else◌}

-- `negsuc n` is -(n + 1).
pub data ℤ : Type 0 where
  pos : ℕ → ℤ
  negsuc : ℕ → ℤ

abbrev pub pos_part : ℤ → ℕ
pos_part (pos n) = n
pos_part (negsuc n) = 0

abbrev pub neg_part : ℤ → ℕ
neg_part (pos n) = 0
neg_part (negsuc n) = suc n

-- a - b, as an integer.
abbrev pub sub_ℕ : ℕ → ℕ → ℤ
sub_ℕ a b = if leb b a then pos (a - b) else negsuc (b - a - 1)

infixl 65 ◌+ℤ◌ ◌-ℤ◌
infixl 70 ◌*ℤ◌
infix 50 ◌≤ℤ◌ ◌<ℤ◌
unfoldable pub ◌+ℤ◌ : ℤ → ℤ → ℤ
a +ℤ b = sub_ℕ (pos_part a + pos_part b) (neg_part a + neg_part b)

unfoldable pub ◌-ℤ◌ : ℤ → ℤ → ℤ
a -ℤ b = sub_ℕ (pos_part a + neg_part b) (neg_part a + pos_part b)

unfoldable pub ◌*ℤ◌ : ℤ → ℤ → ℤ
a *ℤ b =
    sub_ℕ (pos_part a * pos_part b + neg_part a * neg_part b)
      (pos_part a * neg_part b + neg_part a * pos_part b)

abbrev pub ◌≤ℤ◌ : ℤ → ℤ → Type 0
a ≤ℤ b = pos_part a + neg_part b ≤ pos_part b + neg_part a

abbrev pub ◌<ℤ◌ : ℤ → ℤ → Type 0
a <ℤ b = pos_part a + neg_part b < pos_part b + neg_part a

abbrev pub ltb_ℤ : ℤ → ℤ → Bool
ltb_ℤ a b = ltb (pos_part a + neg_part b) (pos_part b + neg_part a)

abbrev pub leb_ℤ : ℤ → ℤ → Bool
leb_ℤ a b = leb (pos_part a + neg_part b) (pos_part b + neg_part a)

unfoldable pub eqb_ℤ : ℤ → ℤ → Bool
eqb_ℤ a b = (pos_part a == pos_part b) && (neg_part a == neg_part b)

pub +ℤ_parts :
    (a b : ℤ)
    → pos_part (a +ℤ b) + neg_part a + neg_part b ≡ neg_part (a +ℤ b) + pos_part a + pos_part b
unfolding ◌+ℤ◌
+ℤ_parts a b = ground arith

pub -ℤ_parts :
    (a b : ℤ)
    → pos_part (a -ℤ b) + neg_part a + pos_part b ≡ neg_part (a -ℤ b) + pos_part a + neg_part b
unfolding ◌-ℤ◌
-ℤ_parts a b = ground arith

pub eq_of_parts : (a b : ℤ) → pos_part a + neg_part b ≡ pos_part b + neg_part a → a ≡ b
eq_of_parts a b h = ground arith

pub ruleset int_laws = (arith, +ℤ_parts, -ℤ_parts, eq_of_parts)

pub eqb_ℤ_iff : (a b : ℤ) → (eqb_ℤ a b ≡ true) ↔ (a ≡ b)
unfolding eqb_ℤ
eqb_ℤ_iff a b = ground arith

-- The two's complement pattern of `z` in `2 ^ 64`, and the integer that a pattern stands for.
abbrev bits64 : ℤ → ℕ
bits64 (pos n) = n % 2 ^ 64
bits64 (negsuc n) = 2 ^ 64 - 1 - n % 2 ^ 64

abbrev signed64 : ℕ → ℤ
signed64 u = if ltb u (2 ^ 63) then pos u else negsuc (2 ^ 64 - 1 - u)

unfoldable pub wrap64 : ℤ → ℤ
wrap64 z = signed64 (bits64 z)

abbrev bits32 : ℤ → ℕ
bits32 (pos n) = n % 2 ^ 32
bits32 (negsuc n) = 2 ^ 32 - 1 - n % 2 ^ 32

abbrev signed32 : ℕ → ℤ
signed32 u = if ltb u (2 ^ 31) then pos u else negsuc (2 ^ 32 - 1 - u)

unfoldable pub wrap32 : ℤ → ℤ
wrap32 z = signed32 (bits32 z)

abbrev pub Is64 : ℤ → Type 0
Is64 z = (pos_part z < neg_part z + 2 ^ 63) × (neg_part z ≤ pos_part z + 2 ^ 63)

abbrev pub Is32 : ℤ → Type 0
Is32 z = (pos_part z < neg_part z + 2 ^ 31) × (neg_part z ≤ pos_part z + 2 ^ 31)

-- Go's `a + b`, `a - b` and `a * b` on int64, and `a + b` and `a * b` on int32.
unfoldable pub add64 : ℤ → ℤ → ℤ
add64 a b = wrap64 (a +ℤ b)

unfoldable pub sub64 : ℤ → ℤ → ℤ
sub64 a b = wrap64 (a -ℤ b)

unfoldable pub mul64 : ℤ → ℤ → ℤ
mul64 a b = wrap64 (a *ℤ b)

unfoldable pub add32 : ℤ → ℤ → ℤ
add32 a b = wrap32 (a +ℤ b)

unfoldable pub mul32 : ℤ → ℤ → ℤ
mul32 a b = wrap32 (a *ℤ b)

pub wrap64_id : (z : ℤ) → Is64 z → wrap64 z ≡ z
unfolding wrap64
wrap64_id (pos n) h = ground arith
wrap64_id (negsuc n) h = ground arith

pub wrap64-Is64 : (z : ℤ) → Is64 (wrap64 z)
unfolding wrap64
wrap64-Is64 (pos n) = ground arith
wrap64-Is64 (negsuc n) = ground arith

pub wrap32_id : (z : ℤ) → Is32 z → wrap32 z ≡ z
unfolding wrap32
wrap32_id (pos n) h = ground arith
wrap32_id (negsuc n) h = ground arith

pub add64_id : (a b : ℤ) → Is64 (a +ℤ b) → add64 a b ≡ a +ℤ b
unfolding add64
add64_id a b h = wrap64_id (a +ℤ b) h

pub sub64_id : (a b : ℤ) → Is64 (a -ℤ b) → sub64 a b ≡ a -ℤ b
unfolding sub64
sub64_id a b h = wrap64_id (a -ℤ b) h

pub mul64_id : (a b : ℤ) → Is64 (a *ℤ b) → mul64 a b ≡ a *ℤ b
unfolding mul64
mul64_id a b h = wrap64_id (a *ℤ b) h

pub add32_id : (a b : ℤ) → Is32 (a +ℤ b) → add32 a b ≡ a +ℤ b
unfolding add32
add32_id a b h = wrap32_id (a +ℤ b) h

-- The same for `omega`: where the result fits, the parts add up.
pub add64_parts :
    (a b : ℤ)
    → pos_part a + pos_part b < neg_part a + neg_part b + 2 ^ 63
    → neg_part a + neg_part b ≤ pos_part a + pos_part b + 2 ^ 63
    → pos_part (add64 a b) + neg_part a + neg_part b
      ≡ neg_part (add64 a b) + pos_part a + pos_part b
add64_parts a b h k = rw (add64_id a b (omega int_laws)) (+ℤ_parts a b)

pub sub64_parts :
    (a b : ℤ)
    → pos_part a + neg_part b < neg_part a + pos_part b + 2 ^ 63
    → neg_part a + pos_part b ≤ pos_part a + neg_part b + 2 ^ 63
    → pos_part (sub64 a b) + neg_part a + pos_part b
      ≡ neg_part (sub64 a b) + pos_part a + neg_part b
sub64_parts a b h k = rw (sub64_id a b (omega int_laws)) (-ℤ_parts a b)

pub add32_parts :
    (a b : ℤ)
    → pos_part a + pos_part b < neg_part a + neg_part b + 2 ^ 31
    → neg_part a + neg_part b ≤ pos_part a + pos_part b + 2 ^ 31
    → pos_part (add32 a b) + neg_part a + neg_part b
      ≡ neg_part (add32 a b) + pos_part a + pos_part b
add32_parts a b h k = rw (add32_id a b (omega int_laws)) (+ℤ_parts a b)

pub ruleset go_laws =
    (arith, +ℤ_parts, -ℤ_parts, eq_of_parts, add64_parts, sub64_parts, add32_parts)

-- On numbers that are not negative, where the result fits.
pub add64_pos : (a b : ℕ) → a + b < 2 ^ 63 → add64 (pos a) (pos b) ≡ pos (a + b)
add64_pos a b h = omega go_laws

pub add32_pos : (a b : ℕ) → a + b < 2 ^ 31 → add32 (pos a) (pos b) ≡ pos (a + b)
add32_pos a b h = omega go_laws

pub mul64_pos : (a b : ℕ) → a * b < 2 ^ 63 → mul64 (pos a) (pos b) ≡ pos (a * b)
unfolding ◌*ℤ◌
mul64_pos a b h = mul64_id (pos a) (pos b) (ground arith) ∙ ground arith
