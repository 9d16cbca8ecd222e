-- ===== src/Random/Pick.antt =====
-- src/configdoc/config_random_mode.go: the two ways to pick, by bisection of the sums and by a scan.
use heli.Common.{
  ℕ, zero, suc, ◌+◌, ◌^◌, ◌≤◌, ◌<◌, ℤ, pos, negsuc, pos_part, ltb, subst, ltb_ℤ, leb_ℤ, ◌<ℤ◌, add32,
  add32_pos, List, [], ◌∷◌, Bool, true, false, ◌||◌, ◌↔◌, Option, none, some, ◌≡◌, refl, sym, ap,
  ◌∙◌, inl, inr, arith, Bool-cases, length, get_elem?, get_or, All,
}
use heli.Common.Search.{search, Monotone, Splits, search-Splits, Splits-unique}
use heli.Random.Weights.{
  TWeight, is_empty, prefixes, total_from, new_x_weight, pick_static, scan, pick_work, with_index,
}

add-positive :
    (s : ℕ) (z : ℤ) → pos 0 <ℤ z → s + pos_part z < 2 ^ 31 → add32 (pos s) z ≡ pos (s + pos_part z)
add-positive s (pos k) p small = add32_pos s k small
add-positive s (negsuc k) p small = absurd (omega arith)

-- Whether the sum up to an index is above the number.
abbrev above : ℤ → List ℤ → ℕ → Bool
above n sums i = ltb_ℤ n (get_or sums i (pos 0))

module _ {ℓ} {A : Type ℓ} where
  -- The sum of the weights, without wrapping.
  abbrev pub sum : List (TWeight A) → ℕ
  sum [] = 0
  sum (w ∷ ws) = pos_part w.weight + sum ws

  abbrev pub Positive : TWeight A → Type 0
  Positive w = pos 0 <ℤ w.weight

  -- Weights that NewWeightSelector accepts, whose sum is an int32.
  pub record Fits (ws : List (TWeight A)) : Type 0 where
    pub positive : All Positive ws
    pub small : sum ws < 2 ^ 31

  pub add-weight :
      (s : ℕ) (w : TWeight A)
      → Positive w
      → s + pos_part w.weight < 2 ^ 31
      → add32 (pos s) w.weight ≡ pos (s + pos_part w.weight)
  add-weight s w p small = add-positive s w.weight p small

  -- The sum of the weights before index `i`.
  abbrev pub share_start : List (TWeight A) → ℕ → ℕ
  share_start ws zero = 0
  share_start [] (suc i) = 0
  share_start (w ∷ ws) (suc i) = pos_part w.weight + share_start ws i

  pub total_from-sum :
      (ws : List (TWeight A)) (s : ℕ)
      → All Positive ws
      → s + sum ws < 2 ^ 31
      → total_from (pos s) ws ≡ pos (s + sum ws)
  unfolding total_from
  total_from-sum [] s p small = ap pos (omega arith)
  total_from-sum (w ∷ ws) s (p, ps) small =
      rw (add-weight s w p (omega arith))
        (total_from-sum ws (s + pos_part w.weight) ps (omega arith) ∙ ap pos (omega arith))

  length-prefixes : (ws : List (TWeight A)) (s : ℤ) → length (prefixes s ws) ≡ length ws
  unfolding prefixes
  length-prefixes [] s = refl
  length-prefixes (w ∷ ws) s = ap suc (length-prefixes ws (add32 s w.weight))

  prefixes-start :
      (ws : List (TWeight A)) (s i : ℕ)
      → All Positive ws
      → s + sum ws < 2 ^ 31
      → i < length ws
      → get_or (prefixes (pos s) ws) i (pos 0) ≡ pos (s + share_start ws (suc i))
  unfolding prefixes
  prefixes-start [] s i p small h = absurd (omega arith)
  prefixes-start (w ∷ ws) s zero (p, ps) small h =
      add-weight s w p (omega arith) ∙ ap pos (omega arith)
  prefixes-start (w ∷ ws) s (suc i) (p, ps) small h = rw (add-weight s w p (omega arith)) (
      prefixes-start ws (s + pos_part w.weight) i ps (omega arith) (omega arith)
      ∙ ap pos (omega arith))

  start_mono : (ws : List (TWeight A)) (i j : ℕ) → i ≤ j → share_start ws i ≤ share_start ws j
  start_mono ws zero j le = omega arith
  start_mono ws (suc i) zero le = absurd (omega arith)
  start_mono [] (suc i) (suc j) le = omega arith
  start_mono (w ∷ ws) (suc i) (suc j) le = omega (arith, start_mono ws i j (omega arith))

  start-suc :
      (ws : List (TWeight A)) (j : ℕ) (w : TWeight A)
      → get_elem? ws j ≡ some w
      → share_start ws (suc j) ≡ share_start ws j + pos_part w.weight
  start-suc [] j w h = absurd (ground arith)
  start-suc (x ∷ ws) zero w h = let same : x ≡ w = ground arith in rw same (omega arith)
  start-suc (x ∷ ws) (suc j) w h = omega (arith, start-suc ws j w h)

  length-some :
      (ws : List (TWeight A)) (j : ℕ) (w : TWeight A) → get_elem? ws j ≡ some w → j < length ws
  length-some [] j w h = absurd (ground arith)
  length-some (x ∷ ws) zero w h = omega arith
  length-some (x ∷ ws) (suc j) w h = omega (arith, length-some ws j w h)

  -- The scan stops where the sums have come above the number.
  scan-Splits :
      (n s : ℤ) (i : ℕ) (ws : List (TWeight A)) (r : ℕ)
      → Splits (length (prefixes s ws)) (above n (prefixes s ws)) r
      → scan n s i ws ≡ with_index (i + r) (get_elem? ws r)
  unfolding scan prefixes
  scan-Splits n s i [] r split = refl
  scan-Splits n s i (w ∷ ws) zero (le, below, over) =
      let here = over 0 (omega arith) (omega arith) in
      rw here (ap (λ (k : ℕ). some (w.item, k)) (omega arith))
  scan-Splits n s i (w ∷ ws) (suc r) (le, below, over) =
      let later = below 0 (omega arith) in
      let rest = scan-Splits n (add32 s w.weight) (suc i) ws r (
        omega arith,
        (λ j p. below (suc j) (omega arith)),
        (λ j p q. over (suc j) (omega arith) (omega arith)),
      ) in
      rw later (
        rest
        ∙ ap (λ (k : ℕ). with_index k (get_elem? ws r)) {x = suc i + r} {y = i + suc r}
            (omega arith))

  index_found :
      (i : ℕ) (o : Option (TWeight A)) {a : A} {j : ℕ} → with_index i o ≡ some (a, j) → i ≡ j
  index_found i none h = absurd (ground arith)
  index_found i (some w) h = ground arith

  module _ (ws : List (TWeight A)) (fits : Fits ws) where
    above_iff :
        (n i : ℕ)
        → i < length ws
        → (above (pos n) (prefixes (pos 0) ws) i ≡ true) ↔ (n < share_start ws (suc i))
    above_iff n i h =
        let at = prefixes-start ws 0 i fits.positive (let small = fits.small in omega arith) h in
        (λ up. ground (arith, at), λ lt. ground (arith, at))

    above-Monotone :
        (n : ℕ) → Monotone (length (prefixes (pos 0) ws)) (above (pos n) (prefixes (pos 0) ws))
    above-Monotone n i j le h up =
        let size = length-prefixes ws (pos 0) in
        let inside : j < length ws = omega arith in
        let mono = start_mono ws (suc i) (suc j) (omega arith) in
        let at_i = (above_iff n i (omega arith)).0 up in (above_iff n j inside).1 (omega arith)

    abbrev found : ℕ → ℕ
    found n = search (length (prefixes (pos 0) ws)) (above (pos n) (prefixes (pos 0) ws))

    found-Splits :
        (n : ℕ)
        → Splits (length (prefixes (pos 0) ws)) (above (pos n) (prefixes (pos 0) ws)) (found n)
    found-Splits n =
        search-Splits (length (prefixes (pos 0) ws)) (above (pos n) (prefixes (pos 0) ws))
          (above-Monotone n)

    -- Bisection of the sums and the scan of the weights pick the same item, for every number that is not
    -- negative, where the weights are positive and their sum is an int32.
    pub pick_static-eq-pick_work :
        (n : ℕ) → pick_static (new_x_weight ws) (pos n) ≡ pick_work (new_x_weight ws) (pos n)
    unfolding pick_static pick_work new_x_weight
    pick_static-eq-pick_work n =
        let scanned = scan-Splits (pos n) (pos 0) 0 ws (found n) (found-Splits n) in
        elim (Bool-cases (leb_ℤ (total_from (pos 0) ws) (pos 0) || is_empty ws)) [
          | inl nothing ↦ rw nothing refl
          | inr something ↦ rw something (
              sym (
                scanned
                ∙ ap (λ (k : ℕ). with_index k (get_elem? ws (found n))) {x = 0 + found n}
                    {y = found n} (omega arith)))
        ]

    static-found :
        (n : ℕ)
        → n < sum ws
        → pick_static (new_x_weight ws) (pos n) ≡ with_index (found n) (get_elem? ws (found n))
    unfolding pick_static new_x_weight
    static-found n below =
        let all = total_from-sum ws 0 fits.positive (let small = fits.small in omega arith) in
        let some_left : is_empty ws ≡ false = not_empty ws below in
        let more : leb_ℤ (total_from (pos 0) ws) (pos 0) ≡ false = rw all (ground arith) in
        rw (more, some_left) refl
      where
        not_empty : (ws : List (TWeight A)) → n < sum ws → is_empty ws ≡ false
        not_empty [] h = absurd (omega arith)
        not_empty (w ∷ ws) h = refl

    share_begins :
        (n j : ℕ)
        → j < length ws
        → Splits (length (prefixes (pos 0) ws)) (above (pos n) (prefixes (pos 0) ws)) j
        → share_start ws j ≤ n
    share_begins n zero h split = omega arith
    share_begins n (suc j) h split = elim (Bool-cases (ltb n (share_start ws (suc j)))) [
      | inr reached ↦ ground arith
      | inl short ↦
          let up = (above_iff n j (omega arith)).1 (ground arith) in
          let down = split.1 j (omega arith) in absurd (ground arith)
    ]

    share-Splits :
        (n j : ℕ) (w : TWeight A)
        → get_elem? ws j ≡ some w
        → share_start ws j ≤ n
        → n < share_start ws j + pos_part w.weight
        → Splits (length (prefixes (pos 0) ws)) (above (pos n) (prefixes (pos 0) ws)) j
    share-Splits n j w there from to =
        let size = length-prefixes ws (pos 0) in
        let inside = length-some ws j w there in
        let next = start-suc ws j w there in
        (
          omega arith,
          (λ i p.
              let mono = start_mono ws (suc i) j p in
              let iff = above_iff n i (omega arith) in
              elim (Bool-cases (above (pos n) (prefixes (pos 0) ws) i)) [
                | inr fails ↦ fails
                | inl holds ↦ let lt = iff.0 holds in absurd (omega arith)
              ]),
          (λ i p q.
              let mono = start_mono ws (suc j) (suc i) (omega arith) in
              (above_iff n i (omega arith)).1 (omega arith)),
        )

    -- For a number below the sum of the weights: the entry at an index is picked exactly when the number lies
    -- in that entry's share, which begins at the sum of the weights before it and is as long as its weight. So
    -- each is picked for as many numbers as its weight says. The weights are positive, and their sum an int32.
    pub pick_share :
        (n j : ℕ) (w : TWeight A)
        → n < sum ws
        → get_elem? ws j ≡ some w
        → (pick_static (new_x_weight ws) (pos n) ≡ some (w.item, j))
          ↔ ((share_start ws j ≤ n) × (n < share_start ws j + pos_part w.weight))
    pick_share n j w below there = (in_share, picked)
      where
        in_share :
            pick_static (new_x_weight ws) (pos n) ≡ some (w.item, j)
            → (share_start ws j ≤ n) × (n < share_start ws j + pos_part w.weight)
        in_share h =
            let inside = length-some ws j w there in
            let at : found n ≡ j =
              index_found (found n) (get_elem? ws (found n)) (sym (static-found n below) ∙ h) in
            let split =
              subst
                (λ (k : ℕ).
                  Splits (length (prefixes (pos 0) ws)) (above (pos n) (prefixes (pos 0) ws)) k)
                at (found-Splits n) in
            let size = length-prefixes ws (pos 0) in
            let up = (above_iff n j inside).0 (split.2 j (omega arith) (omega arith)) in
            let next = start-suc ws j w there in (share_begins n j inside split, omega arith)

        picked :
            (share_start ws j ≤ n) × (n < share_start ws j + pos_part w.weight)
            → pick_static (new_x_weight ws) (pos n) ≡ some (w.item, j)
        picked h =
            let at : found n ≡ j =
              Splits-unique (length (prefixes (pos 0) ws)) (above (pos n) (prefixes (pos 0) ws))
                (found n) j (found-Splits n) (share-Splits n j w there h.0 h.1) in
            static-found n below
            ∙ ap (λ (k : ℕ). with_index k (get_elem? ws k)) at
            ∙ ap (with_index j) there
