-- ===== src/SortedList/Kept.antt =====
-- src/deps/basal/sortedlist.go: elements put in and taken out keep the order.
use mathlib.Core.List.{Perm}
use mathlib.Core.List.Perm
use heli.Common.{
  ◌||◌, ℕ, suc, zero, ℤ, eqb_ℤ, eqb_ℤ_iff, Bool, true, false, List, [], ◌∷◌, ◌≡◌, refl, subst, ◌∙◌,
  inl, inr, arith, Bool-cases, All, some, get_elem?, All-mono,
}
use heli.SortedList.{in_order, insert_at, remove_at}
use heli.SortedList.Places.{Ordered, Distinct, place_of, has_score, in_order_trans}

module _ {ℓ} {A : Type ℓ} (get_score : A → ℤ) (reverse : Bool) where
  later-first : (a b : ℤ) → in_order reverse a b ≡ false → in_order reverse b a ≡ true
  later-first a b h = ground arith

  insert_at-All :
      (P : A → Type 0) (i : ℕ) (v : A) (vs : List A) → P v → All P vs → All P (insert_at i v vs)
  unfolding insert_at
  insert_at-All P zero v vs p a = (p, a)
  insert_at-All P (suc i) v [] p a = (p, tt)
  insert_at-All P (suc i) v (w ∷ vs) p (q, a) = (q, insert_at-All P i v vs p a)

  pub place-Ordered :
      (v : A) (vs : List A)
      → Ordered get_score reverse vs
      → Ordered get_score reverse (insert_at (place_of get_score reverse (get_score v) vs) v vs)
  unfolding insert_at
  place-Ordered v [] o = (tt, tt)
  place-Ordered v (w ∷ vs) (a, o) =
      elim (Bool-cases (in_order reverse (get_score v) (get_score w))) [
        | inl here ↦
            let behind =
              All-mono _ (λ (u : A). in_order reverse (get_score v) (get_score u) ≡ true) vs
                (λ u p.
                  in_order_trans get_score reverse (get_score v) (get_score w) (get_score u) here p)
                a in
            rw here ((here, behind), (a, o))
        | inr later ↦
            let first = later-first (get_score v) (get_score w) later in
            rw later (
              insert_at-All _ (place_of get_score reverse (get_score v) vs) v vs first a,
              place-Ordered v vs o,
            )
      ]

  remove_at-All : (P : A → Type 0) (i : ℕ) (vs : List A) → All P vs → All P (remove_at i vs)
  unfolding remove_at
  remove_at-All P i [] a = tt
  remove_at-All P zero (v ∷ vs) (p, a) = a
  remove_at-All P (suc i) (v ∷ vs) (p, a) = (p, remove_at-All P i vs a)

  pub remove_at-Ordered :
      (i : ℕ) (vs : List A)
      → Ordered get_score reverse vs
      → Ordered get_score reverse (remove_at i vs)
  unfolding remove_at
  remove_at-Ordered i [] o = tt
  remove_at-Ordered zero (v ∷ vs) (a, o) = o
  remove_at-Ordered (suc i) (v ∷ vs) (a, o) = (remove_at-All _ i vs a, remove_at-Ordered i vs o)

  has_score-insert_at :
      (score : ℤ) (i : ℕ) (v : A) (vs : List A)
      → has_score get_score reverse score (insert_at i v vs)
        ≡ (eqb_ℤ (get_score v) score || has_score get_score reverse score vs)
  unfolding insert_at
  has_score-insert_at score zero v vs = refl
  has_score-insert_at score (suc i) v [] = refl
  has_score-insert_at score (suc i) v (w ∷ vs) = ground (arith, has_score-insert_at score i v vs)

  pub insert_at-Distinct :
      (i : ℕ) (v : A) (vs : List A)
      → has_score get_score reverse (get_score v) vs ≡ false
      → Distinct get_score reverse vs
      → Distinct get_score reverse (insert_at i v vs)
  unfolding insert_at
  insert_at-Distinct zero v vs h d = (h, d)
  insert_at-Distinct (suc i) v [] h d = (refl, tt)
  insert_at-Distinct (suc i) v (w ∷ vs) h (n, d) = (
    has_score-insert_at (get_score w) i v vs
        ∙ ground
            (arith, eqb_ℤ_iff (get_score v) (get_score w), eqb_ℤ_iff (get_score w) (get_score v)),
    insert_at-Distinct i v vs (ground arith) d,
  )

  has_score-remove_at :
      (score : ℤ) (i : ℕ) (vs : List A)
      → has_score get_score reverse score vs ≡ false
      → has_score get_score reverse score (remove_at i vs) ≡ false
  unfolding remove_at
  has_score-remove_at score i [] h = refl
  has_score-remove_at score zero (v ∷ vs) h = ground arith
  has_score-remove_at score (suc i) (v ∷ vs) h = ground (arith, has_score-remove_at score i vs)

  pub remove_at-Distinct :
      (i : ℕ) (vs : List A)
      → Distinct get_score reverse vs
      → Distinct get_score reverse (remove_at i vs)
  unfolding remove_at
  remove_at-Distinct i [] d = tt
  remove_at-Distinct zero (v ∷ vs) (n, d) = d
  remove_at-Distinct (suc i) (v ∷ vs) (n, d) =
      (has_score-remove_at (get_score v) i vs n, remove_at-Distinct i vs d)

pub insert_at-perm {ℓ} :
    {A : Type ℓ} (i : ℕ) (v : A) (vs : List A) → Perm (insert_at i v vs) (v ∷ vs)
unfolding insert_at
insert_at-perm zero v vs = Perm.refl (v ∷ vs)
insert_at-perm (suc i) v [] = Perm.refl (v ∷ [])
insert_at-perm (suc i) v (w ∷ vs) =
    Perm.trans (Perm.cons w (insert_at-perm i v vs)) (Perm.swap v w vs)

pub remove_at-perm {ℓ} :
    {A : Type ℓ} (i : ℕ) (v : A) (vs : List A)
    → get_elem? vs i ≡ some v
    → Perm (v ∷ remove_at i vs) vs
unfolding remove_at
remove_at-perm i v [] h = absurd (ground arith)
remove_at-perm {A = A} zero v (w ∷ vs) h =
    let here : v ≡ w = ground arith in
    subst (λ (x : A). Perm (v ∷ vs) (x ∷ vs)) here (Perm.refl (v ∷ vs))
remove_at-perm (suc i) v (w ∷ vs) h =
    Perm.trans (Perm.swap w v (remove_at i vs)) (Perm.cons w (remove_at-perm i v vs h))
