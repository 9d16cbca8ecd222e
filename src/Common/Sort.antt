-- ===== src/Common/Sort.antt =====
-- `sort.Slice` with an order on an int64 key. It is modelled by insertion; where the keys differ,
-- every sort gives the same list.
use mathlib.Core.List.{Perm}
use mathlib.Core.List.Perm
use heli.Common.Tests.{if◌then◌else◌, Bool-cases}
use heli.Common.Lists.{All, All-mono}
use heli.Common.Int.{ℤ, ◌≤ℤ◌, leb_ℤ}
use mathlib.Core.Logic.{inl, inr}
use mathlib.Core.List.{List, [], ◌∷◌}
use native.Mathlib.Omega.{arith}

module _ {ℓ} {A : Type ℓ} (key : A → ℤ) where
  unfoldable pub place : A → List A → List A
  place x [] = x ∷ []
  place x (y ∷ ys) = if leb_ℤ (key x) (key y) then x ∷ y ∷ ys else y ∷ place x ys

  unfoldable pub sort_by : List A → List A
  unfolding place
  sort_by [] = []
  sort_by (x ∷ xs) = place x (sort_by xs)

  -- The keys do not fall along the list.
  abbrev pub IsSorted : List A → Type 0
  IsSorted [] = Unit
  IsSorted (x ∷ xs) = All (λ y. key x ≤ℤ key y) xs × IsSorted xs

  place-perm : (x : A) (ys : List A) → Perm (place x ys) (x ∷ ys)
  unfolding place
  place-perm x [] = Perm.refl (x ∷ [])
  place-perm x (y ∷ ys) = elim (Bool-cases (leb_ℤ (key x) (key y))) [
    | inl first ↦ rw first (Perm.refl (x ∷ y ∷ ys))
    | inr later ↦ rw later (Perm.trans (Perm.cons y (place-perm x ys)) (Perm.swap x y ys))
  ]

  pub sort_by-perm : (xs : List A) → Perm (sort_by xs) xs
  unfolding sort_by
  sort_by-perm [] = Perm.refl []
  sort_by-perm (x ∷ xs) = Perm.trans (place-perm x (sort_by xs)) (Perm.cons x (sort_by-perm xs))

  place-All :
      (k : ℤ) (x : A) (ys : List A)
      → k ≤ℤ key x
      → All (λ y. k ≤ℤ key y) ys
      → All (λ y. k ≤ℤ key y) (place x ys)
  unfolding place
  place-All k x [] h a = (h, tt)
  place-All k x (y ∷ ys) h a = ground (arith, place-All k x ys h a.1)

  place-IsSorted : (x : A) (ys : List A) → IsSorted ys → IsSorted (place x ys)
  unfolding place
  place-IsSorted x [] s = (tt, tt)
  place-IsSorted x (y ∷ ys) s = elim (Bool-cases (leb_ℤ (key x) (key y))) [
    | inl first ↦
        let h : key x ≤ℤ key y = ground arith in
        rw first
          ((h, All-mono (λ z. key y ≤ℤ key z) (λ z. key x ≤ℤ key z) ys (λ z p. omega arith) s.0), s)
    | inr later ↦
        let h : key y ≤ℤ key x = ground arith in
        rw later (place-All (key y) x ys h s.0, place-IsSorted x ys s.1)
  ]

  pub sort_by-IsSorted : (xs : List A) → IsSorted (sort_by xs)
  unfolding sort_by
  sort_by-IsSorted [] = tt
  sort_by-IsSorted (x ∷ xs) = place-IsSorted x (sort_by xs) (sort_by-IsSorted xs)

  place-All-of {μ} : (P : A → Type μ) (x : A) (ys : List A) → P x → All P ys → All P (place x ys)
  unfolding place
  place-All-of P x [] h a = (h, tt)
  place-All-of P x (y ∷ ys) h a = elim (Bool-cases (leb_ℤ (key x) (key y))) [
    | inl first ↦ rw first (h, a)
    | inr later ↦ rw later (a.0, place-All-of P x ys h a.1)
  ]

  pub sort_by-All {μ} : (P : A → Type μ) (xs : List A) → All P xs → All P (sort_by xs)
  unfolding sort_by
  sort_by-All P [] a = tt
  sort_by-All P (x ∷ xs) a = place-All-of P x (sort_by xs) a.0 (sort_by-All P xs a.1)
