-- ===== src/Random/Weights.antt =====
-- src/configdoc/config_random_mode.go: weights, and the pick of one for a given number.
use heli.Common.{
  ℕ, zero, suc, ◌-◌, ℤ, pos, ltb_ℤ, leb_ℤ, ◌<ℤ◌, ◌≤ℤ◌, add32, List, [], ◌∷◌, Bool, true, false,
  ◌||◌, Option, none, some, length, get_elem?, get_or, set, if◌then◌else◌,
}
use heli.Common.Search.{search}

pub record TWeight {ℓ} (A : Type ℓ) : Type ℓ where
  pub weight : ℤ
  pub item : A

pub data RandomKind : Type 0 where
  invalid prob merge : RandomKind

pub record XWeight {ℓ} (A : Type ℓ) : Type ℓ where
  pub total : ℤ
  pub ws : List (TWeight A)
  pub prefix : List ℤ

abbrev pub max_weight : ℤ
max_weight = pos 10000

-- `rand.Int32N(n)`, on the state `S` of the source: a number in `[0, n)` for a positive `n`.
pub record Source (S : Type 0) : Type 0 where
  pub int32_n : ℤ → S → ℤ × S
  pub int32_n_range :
      (n : ℤ) (s : S) → pos 0 <ℤ n → (pos 0 ≤ℤ (int32_n n s).0) × ((int32_n n s).0 <ℤ n)

abbrev pub is_empty {ℓ} : {A : Type ℓ} → List A → Bool
is_empty [] = true
is_empty (x ∷ xs) = false

abbrev pub take {ℓ} : {A : Type ℓ} → ℕ → List A → List A
take zero xs = []
take (suc n) [] = []
take (suc n) (x ∷ xs) = x ∷ take n xs

module _ {ℓ} {A : Type ℓ} where
  unfoldable pub prefixes : ℤ → List (TWeight A) → List ℤ
  prefixes total [] = []
  prefixes total (w ∷ ws) = add32 total w.weight ∷ prefixes (add32 total w.weight) ws

  unfoldable pub total_from : ℤ → List (TWeight A) → ℤ
  total_from total [] = total
  total_from total (w ∷ ws) = total_from (add32 total w.weight) ws

  unfoldable pub new_x_weight : List (TWeight A) → XWeight A
  unfolding prefixes total_from
  new_x_weight ws = record { total = total_from (pos 0) ws; ws = ws; prefix = prefixes (pos 0) ws }

  abbrev pub with_index : ℕ → Option (TWeight A) → Option (A × ℕ)
  with_index i none = none
  with_index i (some w) = some (w.item, i)

  -- randMergeOneStaticByTotal
  unfoldable pub pick_static : XWeight A → ℤ → Option (A × ℕ)
  pick_static x n =
      if leb_ℤ x.total (pos 0) || is_empty x.ws
      then none
      else (let i = search (length x.prefix) (λ i. ltb_ℤ n (get_or x.prefix i (pos 0))) in
          with_index i (get_elem? x.ws i))

  -- The loop of randMergeOneWorkStateByTotal, from index `i` on.
  unfoldable pub scan : ℤ → ℤ → ℕ → List (TWeight A) → Option (A × ℕ)
  scan n sum i [] = none
  scan n sum i (w ∷ ws) =
      let rest = scan n (add32 sum w.weight) (suc i) ws in
      if ltb_ℤ n (add32 sum w.weight) then some (w.item, i) else rest

  -- randMergeOneWorkStateByTotal
  unfoldable pub pick_work : XWeight A → ℤ → Option (A × ℕ)
  unfolding scan
  pick_work x n = if leb_ℤ x.total (pos 0) || is_empty x.ws then none else scan n (pos 0) 0 x.ws

  -- The picked weight and the last one change places, and the slice is cut before the last.
  unfoldable pub swap_out : ℕ → TWeight A → List (TWeight A) → List (TWeight A)
  swap_out i picked ws =
      let last = length ws - 1 in
      elim (get_elem? ws last) [ none ↦ ws | some w ↦ take last (set (set ws i w) last picked) ]
