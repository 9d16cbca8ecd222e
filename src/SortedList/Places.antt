-- ===== src/SortedList/Places.antt =====
-- src/deps/basal/sortedlist.go: where the bisection stops in a list that is in order.
use heli.Common.{
  ◌&&◌, ◌||◌, ℕ, suc, zero, ◌≤◌, ◌<◌, ℤ, ltb, eqb_ℤ, eqb_ℤ_iff, Bool, true, false, List, [], ◌∷◌,
  some, if◌then◌else◌, length, get_elem?, get_elem?-some, ◌≡◌, refl, ◌∙◌, inl, inr, arith,
  Bool-cases, All, All-mono,
}
use heli.Common.Search.{search, Monotone, Splits, search-Splits, Splits-unique}
use heli.SortedList.{SortedList, in_order, score_at, reaches, search_by_score}

positive : (n : ℕ) → ltb 0 (suc n) ≡ true
positive n = ground arith

module _ {ℓ} {A : Type ℓ} (get_score : A → ℤ) (reverse : Bool) where
  abbrev pub Ordered : List A → Type 0
  Ordered [] = Unit
  Ordered (v ∷ vs) = All (λ w. in_order reverse (get_score v) (get_score w) ≡ true) vs × Ordered vs

  -- The place of a score, found from the front.
  abbrev pub place_of : ℤ → List A → ℕ
  place_of score [] = 0
  place_of score (v ∷ vs) =
      if in_order reverse score (get_score v) then 0 else suc (place_of score vs)

  pub in_order_trans :
      (a b c : ℤ)
      → in_order reverse a b ≡ true
      → in_order reverse b c ≡ true
      → in_order reverse a c ≡ true
  in_order_trans a b c p q = ground arith

  reaches-All :
      (score : ℤ) (vs : List A) (i : ℕ)
      → All (λ w. in_order reverse score (get_score w) ≡ true) vs
      → i < length vs
      → reaches get_score reverse score vs i ≡ true
  reaches-All score [] i a h = absurd (omega arith)
  reaches-All score (v ∷ vs) zero (p, a) h = p
  reaches-All score (v ∷ vs) (suc i) (p, a) h = reaches-All score vs i a (omega arith)

  Ordered-Monotone :
      (score : ℤ) (vs : List A)
      → Ordered vs
      → Monotone (length vs) (reaches get_score reverse score vs)
  Ordered-Monotone score [] o i j le lt h = absurd (omega arith)
  Ordered-Monotone score (v ∷ vs) (a, o) zero zero le lt h = h
  Ordered-Monotone score (v ∷ vs) (a, o) zero (suc j) le lt h =
      reaches-All score vs j
        (All-mono _ _ vs (λ w p. in_order_trans score (get_score v) (get_score w) h p) a)
        (omega arith)
  Ordered-Monotone score (v ∷ vs) (a, o) (suc i) zero le lt h = absurd (omega arith)
  Ordered-Monotone score (v ∷ vs) (a, o) (suc i) (suc j) le lt h =
      Ordered-Monotone score vs o i j (omega arith) (omega arith) h

  below_cons :
      (score : ℤ) (v : A) (vs : List A) (k : ℕ)
      → in_order reverse score (get_score v) ≡ false
      → ((i : ℕ) → i < k → reaches get_score reverse score vs i ≡ false)
      → (i : ℕ) → i < suc k
      → reaches get_score reverse score (v ∷ vs) i ≡ false
  below_cons score v vs k later below zero h = later
  below_cons score v vs k later below (suc i) h = below i (omega arith)

  above_cons :
      (score : ℤ) (v : A) (vs : List A) (k : ℕ)
      → ((i : ℕ) → k ≤ i → i < length vs → reaches get_score reverse score vs i ≡ true)
      → (i : ℕ) → suc k ≤ i
      → i < suc (length vs)
      → reaches get_score reverse score (v ∷ vs) i ≡ true
  above_cons score v vs k above zero le h = absurd (omega arith)
  above_cons score v vs k above (suc i) le h = above i (omega arith) (omega arith)

  place-Splits :
      (score : ℤ) (vs : List A)
      → Ordered vs
      → Splits (length vs) (reaches get_score reverse score vs) (place_of score vs)
  place-Splits score [] o =
      (omega arith, λ i p. absurd (omega arith), λ i p q. absurd (omega arith))
  place-Splits score (v ∷ vs) (a, o) = elim (Bool-cases (in_order reverse score (get_score v))) [
    | inl here ↦ rw here (
      omega arith,
      λ i p. absurd (omega arith),
      λ i p q. Ordered-Monotone score (v ∷ vs) (a, o) 0 i p q here,
    )
    | inr later ↦
        let (inside, below, above) = place-Splits score vs o in
        rw later (
          omega arith,
          below_cons score v vs (place_of score vs) later below,
          above_cons score v vs (place_of score vs) above,
        )
  ]

  pub search-place :
      (score : ℤ) (vs : List A)
      → Ordered vs
      → search (length vs) (reaches get_score reverse score vs) ≡ place_of score vs
  search-place score vs o =
      let test = reaches get_score reverse score vs in
      Splits-unique (length vs) test (search (length vs) test) (place_of score vs)
        (search-Splits (length vs) test (Ordered-Monotone score vs o)) (place-Splits score vs o)

  -- Some element has that score.
  abbrev pub has_score : ℤ → List A → Bool
  has_score score [] = false
  has_score score (v ∷ vs) = eqb_ℤ (get_score v) score || has_score score vs

  -- No score stands twice.
  abbrev pub Distinct : List A → Type 0
  Distinct [] = Unit
  Distinct (v ∷ vs) = (has_score (get_score v) vs ≡ false) × Distinct vs

  passed-absent :
      (score : ℤ) (v : A) (vs : List A)
      → in_order reverse score (get_score v) ≡ true
      → eqb_ℤ (get_score v) score ≡ false
      → All (λ w. in_order reverse (get_score v) (get_score w) ≡ true) vs
      → has_score score vs ≡ false
  passed-absent score v [] p n a = refl
  passed-absent score v (w ∷ vs) p n (q, a) = ground (
    arith,
    passed-absent score v vs p n a,
    eqb_ℤ_iff (get_score v) score,
    eqb_ℤ_iff (get_score w) score,
  )

  pub found_at :
      (score : ℤ) (vs : List A)
      → Ordered vs
      → (ltb (place_of score vs) (length vs)
          && eqb_ℤ (score_at get_score vs (place_of score vs)) score)
        ≡ has_score score vs
  found_at score [] o = ground arith
  found_at score (v ∷ vs) (a, o) = elim (Bool-cases (in_order reverse score (get_score v))) [
    | inl here ↦ elim (Bool-cases (eqb_ℤ (get_score v) score)) [
      | inl same ↦ rw (here, same) (ground arith)
      | inr other ↦ rw (here, other, passed-absent score v vs here other a) (ground arith)
    ]
    | inr later ↦
        let other : eqb_ℤ (get_score v) score ≡ false =
          ground (arith, eqb_ℤ_iff (get_score v) score) in
        let shift : ltb (suc (place_of score vs)) (suc (length vs))
            ≡ ltb (place_of score vs) (length vs) =
          ground arith in
        rw (later, other, shift) (found_at score vs o)
  ]

  empty_or_not :
      (vs : List A) (score : ℤ)
      → let answer : ℕ × Bool = (place_of score vs, has_score score vs) in
        (if ltb 0 (length vs) then answer else (0, false)) ≡ answer
  empty_or_not [] score = refl
  empty_or_not (v ∷ vs) score = rw (positive (length vs)) refl

  -- What SearchByScore answers in a list that is in order.
  pub search_by_score-place :
      (score : ℤ) (l : SortedList A)
      → l.reverse ≡ reverse
      → Ordered l.buf
      → search_by_score get_score score l ≡ (place_of score l.buf, has_score score l.buf)
  unfolding search_by_score
  search_by_score-place score l r o =
      rw (r, search-place score l.buf o, found_at score l.buf o) (empty_or_not l.buf score)

  -- Where the bisection stops, there is an element of the score, if any has it.
  pub place-element :
      (score : ℤ) (vs : List A)
      → Ordered vs
      → has_score score vs ≡ true
      → (v : A) × (get_elem? vs (place_of score vs) ≡ some v) × (get_score v ≡ score)
  place-element score vs o present =
      let place = place_of score vs in
      let held = found_at score vs o ∙ present in
      let inside : ltb place (length vs) ≡ true = ground arith in
      let (v, here) = get_elem?-some vs place (ground arith) in
      let same : eqb_ℤ (score_at get_score vs place) score ≡ true = ground arith in
      (v, here, (eqb_ℤ_iff (get_score v) score).0 (rw (score_at, here) at same))
