-- ===== src/Common/Table.antt =====
-- Go's maps as association lists: `find` is `m[k]` with its `ok`, `insert` is `m[k] = v`, `erase`
-- is `delete(m, k)`. The order of the list is the order in which `range` visits the map; Go leaves it
-- open, and every theorem is about every order.
use heli.Common.Tests.{if◌then◌else◌, Bool-cases}
use heli.Common.Keys.{Eq, beq_refl, beq_ne}
use mathlib.Core.Path.{◌≡◌, refl, sym, subst, ◌∙◌}
use heli.Common.Lists.{All}
use mathlib.Core.Logic.{◌≢◌, ◌⊎◌, inl, inr}
use mathlib.Core.Option.{Option, none, some}
use mathlib.Core.List.{List, [], ◌∷◌}
use native.Mathlib.Omega.{arith}

abbrev pub Table {ℓ κ} : Type ℓ → Type κ → Type (ℓ ⊔ κ)
Table K V = List (K × V)

module _ {ℓ κ} {K : Type ℓ} {V : Type κ} ⦃e : Eq K⦄ where
  unfoldable pub find : K → Table K V → Option V
  find k [] = none
  find k ((j, v) ∷ m) = if e.beq j k then some v else find k m

  unfoldable pub insert : K → V → Table K V → Table K V
  insert k v [] = (k, v) ∷ []
  insert k v ((j, w) ∷ m) = if e.beq j k then (j, v) ∷ m else (j, w) ∷ insert k v m

  unfoldable pub erase : K → Table K V → Table K V
  erase k [] = []
  erase k ((j, w) ∷ m) = let rest = erase k m in if e.beq j k then rest else (j, w) ∷ rest

  pub find-insert :
      (k j : K) (v : V) (m : Table K V)
      → find j (insert k v m) ≡ (if e.beq k j then some v else find j m)
  unfolding find insert
  find-insert k j v [] = refl
  find-insert k j v ((i, w) ∷ m) =
      ground (arith, e.beq_iff k j, e.beq_iff i k, e.beq_iff i j, find-insert k j v m)

  pub find-erase :
      (k j : K) (m : Table K V) → find j (erase k m) ≡ (if e.beq k j then none else find j m)
  unfolding find erase
  find-erase k j [] = ground arith
  find-erase k j ((i, w) ∷ m) =
      ground (arith, e.beq_iff k j, e.beq_iff i k, e.beq_iff i j, find-erase k j m)

  pub find-insert_self : (k : K) (v : V) (m : Table K V) → find k (insert k v m) ≡ some v
  find-insert_self k v m = rw (find-insert k k v m, beq_refl k)

  pub find-insert_ne : (k j : K) (v : V) (m : Table K V) → k ≢ j → find j (insert k v m) ≡ find j m
  find-insert_ne k j v m h = rw (find-insert k j v m, beq_ne k j h)

  pub find-erase_self : (k : K) (m : Table K V) → find k (erase k m) ≡ none
  find-erase_self k m = rw (find-erase k k m, beq_refl k)

  pub find-erase_ne : (k j : K) (m : Table K V) → k ≢ j → find j (erase k m) ≡ find j m
  find-erase_ne k j m h = rw (find-erase k j m, beq_ne k j h)

  -- What a lookup after a write, or after a removal, has found.
  pub find-insert_inv :
      (k j : K) (v w : V) (m : Table K V)
      → find j (insert k v m) ≡ some w
      → ((k ≡ j) × (v ≡ w)) ⊎ ((k ≢ j) × (find j m ≡ some w))
  find-insert_inv k j v w m h = elim (Bool-cases (e.beq k j)) [
    | inl same ↦ inl ((e.beq_iff k j).0 same, ground (arith, find-insert k j v m))
    | inr other ↦
        inr ((λ p. ground (arith, (e.beq_iff k j).1 p)), ground (arith, find-insert k j v m))
  ]

  pub find-erase_inv :
      (k j : K) (w : V) (m : Table K V)
      → find j (erase k m) ≡ some w
      → (k ≢ j) × (find j m ≡ some w)
  find-erase_inv k j w m h = elim (Bool-cases (e.beq k j)) [
    | inl same ↦ absurd (ground (arith, find-erase k j m))
    | inr other ↦ ((λ p. ground (arith, (e.beq_iff k j).1 p)), ground (arith, find-erase k j m))
  ]

  -- Writing what is there changes nothing.
  pub insert-found : (k : K) (v : V) (m : Table K V) → find k m ≡ some v → insert k v m ≡ m
  unfolding find insert
  insert-found k v [] h = ground arith
  insert-found k v ((j, w) ∷ m) h = ground (arith, insert-found k v m)

  -- No key stands twice.
  abbrev pub Unique : Table K V → Type (ℓ ⊔ κ)
  Unique [] = Unit
  Unique ((k, v) ∷ m) = (find k m ≡ none) × Unique m

  pub insert-Unique : (k : K) (v : V) (m : Table K V) → Unique m → Unique (insert k v m)
  unfolding insert
  insert-Unique k v [] u = (unfold find in refl, tt)
  insert-Unique k v ((j, w) ∷ m) (fresh, u) = elim (Bool-cases (e.beq j k)) [
    | inl same ↦ rw (same, insert) (fresh, u)
    | inr other ↦
        let apart : k ≢ j = λ p. ground (arith, e.beq_iff j k) in
        rw (other, insert) (find-insert_ne k j v m apart ∙ fresh, insert-Unique k v m u)
  ]

  pub insert-All {μ} :
      (P : K × V → Type μ) (k : K) (v : V) (m : Table K V)
      → All P m
      → P (k, v)
      → All P (insert k v m)
  unfolding insert
  insert-All P k v [] a p = (p, tt)
  insert-All P k v ((j, w) ∷ m) (pj, a) p = elim (Bool-cases (e.beq j k)) [
    | inl same ↦ rw (same, insert) (subst (λ (i : K). P (i, v)) (sym ((e.beq_iff j k).0 same)) p, a)
    | inr other ↦ rw (other, insert) (pj, insert-All P k v m a p)
  ]

  pub find-All {μ} :
      (P : K × V → Type μ) (k : K) (v : V) (m : Table K V) → All P m → find k m ≡ some v → P (k, v)
  unfolding find
  find-All P k v [] a h = absurd (ground arith)
  find-All P k v ((j, w) ∷ m) (pj, a) h = elim (Bool-cases (e.beq j k)) [
    | inl same ↦
        let here : w ≡ v = ground arith in
        subst (λ (x : V). P (k, x)) here (subst (λ (i : K). P (i, w)) ((e.beq_iff j k).0 same) pj)
    | inr other ↦ find-All P k v m a (ground arith)
  ]

  pub erase-All {μ} : (P : K × V → Type μ) (k : K) (m : Table K V) → All P m → All P (erase k m)
  unfolding erase
  erase-All P k [] a = tt
  erase-All P k ((j, w) ∷ m) (p, a) = elim (Bool-cases (e.beq j k)) [
    | inl same ↦ rw (same, erase) (erase-All P k m a)
    | inr other ↦ rw (other, erase) (p, erase-All P k m a)
  ]
