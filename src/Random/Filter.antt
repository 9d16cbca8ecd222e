-- ===== src/Random/Filter.antt =====
-- src/configdoc/config_random.go: drawing past a filter.
use heli.Common.{
  ℕ, zero, suc, ◌-◌, ◌*◌, ℤ, pos, leb_ℤ, wrap32, add32, mul32, Eq, List, [], ◌∷◌, ◌++◌, Bool, true,
  false, not, ◌||◌, ◌&&◌, Option, none, some, ltb, length, ◌==◌, if◌then◌else◌,
}
use heli.Random.Weights.{TWeight, invalid, prob, merge, XWeight, Source, is_empty, new_x_weight}
use heli.Random.Select.{
  TWeightSelector, rand_merge_one_static, static_rounds, work_rounds, work_state, prob_rounds,
}

module _ {ℓ} {A : Type ℓ} ⦃e : Eq A⦄ where
  unfoldable pub weight_filter_contains : List A → A → Bool
  weight_filter_contains [] target = false
  weight_filter_contains (item ∷ items) target =
      e.beq item target || weight_filter_contains items target

  -- The weights whose items are neither filtered out nor to be excluded.
  unfoldable pub allowed : Bool → (A → Bool) → List A → List (TWeight A) → List (TWeight A)
  unfolding weight_filter_contains
  allowed repeat filter exclude [] = []
  allowed repeat filter exclude (w ∷ ws) =
      let rest = allowed repeat filter exclude ws in
      if filter w.item || (not repeat && weight_filter_contains exclude w.item)
      then rest
      else w ∷ rest

  -- One try of the fast loop: the items found so far, in the order in which they were found.
  abbrev pub fast_try : Bool → (A → Bool) → List A → Option A → List A
  fast_try repeat filter found none = found
  fast_try repeat filter found (some item) =
      if filter item || (not repeat && weight_filter_contains found item)
      then found
      else found ++ (item ∷ [])

module _ {ℓ} {S : Type 0} {A : Type ℓ} where
  abbrev pub after : List A → Option (List A × S) → Option (List A × S)
  after found none = none
  after found (some (items, s)) = some (found ++ items, s)

module _ {ℓ} {A : Type ℓ} where
  -- In int32: with large numbers `(existing + num) * 5` wraps.
  unfoldable pub should_use_filter_fast : TWeightSelector A → ℕ → Bool → ℤ → Bool
  should_use_filter_fast sel num repeat existing_count =
      if repeat
      then true
      else not (
          leb_ℤ (mul32 (pos 3) (wrap32 (pos (length sel.static.ws))))
            (mul32 (add32 existing_count (pos num)) (pos 5)))

module _ {ℓ} {S : Type 0} (source : Source S) {A : Type ℓ} ⦃e : Eq A⦄ where
  -- A selection that finds nothing ends the loop, with `false`.
  unfoldable pub fast_rounds :
      ℕ → XWeight A → ℕ → Bool → (A → Bool) → List A → S → (List A × Bool) × S
  unfolding rand_merge_one_static weight_filter_contains
  fast_rounds zero x num repeat filter found s = ((found, length found == num), s)
  fast_rounds (suc budget) x num repeat filter found s =
      let (o, s₁) = rand_merge_one_static source x s in
      let rest = fast_rounds budget x num repeat filter (fast_try repeat filter found o) s₁ in
      if ltb (length found) num
      then (elim o [ none ↦ ((found, false), s₁) | some item ↦ rest ])
      else ((found, length found == num), s)

  unfoldable pub rand_weight_n_by_filter_fast :
      TWeightSelector A → ℕ → Bool → (A → Bool) → S → (List A × Bool) × S
  unfolding fast_rounds
  rand_weight_n_by_filter_fast sel num repeat filter s =
      fast_rounds (num * 3) sel.static num repeat filter [] s

  -- `none` is a panic.
  unfoldable pub rand_weight_n_by_filter_slow :
      TWeightSelector A → ℕ → Bool → (A → Bool) → List A → S → Option (List A × S)
  unfolding allowed static_rounds work_rounds prob_rounds new_x_weight
  rand_weight_n_by_filter_slow sel num repeat filter exclude s =
      let weights = allowed repeat filter exclude sel.static.ws in
      if num == 0 || is_empty weights then some ([], s) else (elim sel.kind [
        | merge ↦
            if repeat || (num == 1)
            then some (static_rounds source num (new_x_weight weights) s)
            else some (work_rounds source num (work_state (new_x_weight weights)) s)
        | prob ↦ some (prob_rounds source num weights s)
        | invalid ↦ none
      ])

  abbrev pub go_on :
      TWeightSelector A → ℕ → Bool → (A → Bool) → (List A × Bool) × S → Option (List A × S)
  go_on sel num repeat filter ((found, true), s) = some (found, s)
  go_on sel num repeat filter ((found, false), s) =
      after found (rand_weight_n_by_filter_slow sel (num - length found) repeat filter found s)

  -- With a filter; for a number that is not positive there is nothing, and it is 0 here.
  unfoldable pub rand_weight_n_by_filter :
      TWeightSelector A → ℕ → Bool → ℤ → (A → Bool) → S → Option (List A × S)
  unfolding should_use_filter_fast rand_weight_n_by_filter_fast rand_weight_n_by_filter_slow
  rand_weight_n_by_filter sel num repeat existing_count filter s =
      if num == 0 then some ([], s) else (elim sel.kind [
        | merge ↦
            if should_use_filter_fast sel num repeat existing_count
            then go_on sel num repeat filter (rand_weight_n_by_filter_fast sel num repeat filter s)
            else rand_weight_n_by_filter_slow sel num repeat filter [] s
        | prob ↦ rand_weight_n_by_filter_slow sel num repeat filter [] s
        | invalid ↦ none
      ])
