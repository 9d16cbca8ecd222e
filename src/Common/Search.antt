-- ===== src/Common/Search.antt =====
-- `sort.Search` of Go: the least index of `[0, n)` at which a test holds, or `n`, by bisection.
use Prim.Native.Nat.{ℕ, zero, suc, ◌+◌, ◌/◌, ◌≤◌, ◌<◌}
use mathlib.Core.Path.{◌≡◌}
use mathlib.Core.Logic.{inl, inr}
use mathlib.Core.Bool.{Bool, true, false}
use native.Mathlib.Omega.{arith}
use heli.Common.Tests.{ltb, if◌then◌else◌, Bool-cases}

-- As many rounds as the range is long are enough: each shortens it.
unfoldable pub bisect : ℕ → (ℕ → Bool) → ℕ → ℕ → ℕ
bisect zero test lo hi = lo
bisect (suc fuel) test lo hi =
    let mid = (lo + hi) / 2 in
    let upper = bisect fuel test (mid + 1) hi in
    let lower = bisect fuel test lo mid in
    if ltb lo hi then (if test mid then lower else upper) else lo

unfoldable pub search : ℕ → (ℕ → Bool) → ℕ
unfolding bisect
search n test = bisect n test 0 n

-- From some index on the test holds.
abbrev pub Monotone : ℕ → (ℕ → Bool) → Type 0
Monotone n test = (i j : ℕ) → i ≤ j → j < n → test i ≡ true → test j ≡ true

-- The test fails below `r`, and holds from `r` on.
abbrev pub Splits : ℕ → (ℕ → Bool) → ℕ → Type 0
Splits n test r =
    (r ≤ n) × ((i : ℕ) → i < r → test i ≡ false) × ((i : ℕ) → r ≤ i → i < n → test i ≡ true)

module _ (n : ℕ) (test : ℕ → Bool) (mono : Monotone n test) where
  bisect-Splits :
      (fuel lo hi : ℕ)
      → lo ≤ hi
      → hi ≤ n
      → hi ≤ lo + fuel
      → ((i : ℕ) → i < lo → test i ≡ false)
      → ((i : ℕ) → hi ≤ i → i < n → test i ≡ true)
      → Splits n test (bisect fuel test lo hi)
  unfolding bisect
  bisect-Splits zero lo hi le inside enough below above =
      (omega arith, below, λ i p. above i (omega arith))
  bisect-Splits (suc fuel) lo hi le inside enough below above = elim (Bool-cases (ltb lo hi)) [
    | inr empty ↦
        let same : hi ≤ lo = ground arith in
        rw empty (omega arith, below, λ i p. above i (omega arith))
    | inl open_range ↦
        let h : lo < hi = ground arith in
        let mid = (lo + hi) / 2 in
        elim (Bool-cases (test mid)) [
          | inl up ↦
              rw (open_range, up)
                (bisect-Splits fuel lo mid (omega arith) (omega arith) (omega arith) below
                  (λ i p q. mono mid i p q up))
          | inr down ↦
              rw (open_range, down)
                (bisect-Splits fuel (mid + 1) hi (omega arith) inside (omega arith)
                  (λ i p. elim (Bool-cases (test i)) [
                    | inr fails ↦ fails
                    | inl holds ↦ cc (mono i mid (omega arith) (omega arith) holds)
                  ])
                  above)
        ]
  ]

  -- `search` returns where the test begins to hold.
  pub search-Splits : Splits n test (search n test)
  unfolding search
  search-Splits =
      bisect-Splits n 0 n (omega arith) (omega arith) (omega arith) (λ i p. absurd (omega arith))
        (λ i p q. absurd (omega arith))

pub Splits-unique : (n : ℕ) (test : ℕ → Bool) (r s : ℕ) → Splits n test r → Splits n test s → r ≡ s
Splits-unique n test r s p q = ground (arith, p.1 s, p.2 r, q.1 r, q.2 s)
