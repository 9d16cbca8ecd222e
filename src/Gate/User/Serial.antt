-- ===== src/Gate/User/Serial.antt =====
-- src/service/gate/gateuser/gate_user.go: the order of the 16-bit numbers of messages, which go round.
use heli.Common.{ℕ, ◌+◌, ◌-◌, ◌%◌, ◌^◌, ◌≤◌, ◌<◌, ◌≡◌, ◌↔◌, true, false, arith}
use heli.Gate.User.{is_seq_greater}

-- One number is greater than another exactly when the way up from the second to the first, going round
-- at 2 ^ 16, is not empty and shorter than half the circle.
pub is_seq_greater_iff :
    (s₁ s₂ : ℕ)
    → s₁ < 2 ^ 16
    → s₂ < 2 ^ 16
    → (is_seq_greater s₁ s₂ ≡ true)
      ↔ ((0 < (s₁ + 2 ^ 16 - s₂) % 2 ^ 16) × ((s₁ + 2 ^ 16 - s₂) % 2 ^ 16 < 2 ^ 15))
unfolding is_seq_greater
is_seq_greater_iff s₁ s₂ h k = ground arith

-- A number that is `j` steps on, counted from the same start, with fewer than half the circle between.
pub ahead :
    (s i j : ℕ)
    → i < j
    → j < i + 2 ^ 15
    → is_seq_greater ((s + j) % 2 ^ 16) ((s + i) % 2 ^ 16) ≡ true
unfolding is_seq_greater
ahead s i j h k = ground arith

pub not_ahead :
    (s i j : ℕ)
    → j ≤ i
    → i < j + 2 ^ 15
    → is_seq_greater ((s + j) % 2 ^ 16) ((s + i) % 2 ^ 16) ≡ false
unfolding is_seq_greater
not_ahead s i j h k = ground arith
