-- ===== src/Random/Select.antt =====
-- src/configdoc/config_random.go, src/configdoc/config_random_mode.go: the selector and its draws. A callback that
-- receives the drawn items is the list of what it receives; each function takes the state of the source and
-- returns the next.
use heli.Common.{
  ℕ, zero, suc, ℤ, pos, pos_part, ltb_ℤ, leb_ℤ, eqb_ℤ, ◌-ℤ◌, wrap32, List, [], ◌∷◌, ◌++◌, map, Bool,
  true, not, ◌||◌, ◌&&◌, Option, none, some, get_elem?, if◌then◌else◌,
}
use heli.Common.Table.{Table}
use heli.Random.Weights.{
  TWeight, RandomKind, invalid, prob, merge, XWeight, Source, max_weight, is_empty, new_x_weight,
  pick_static, pick_work, swap_out,
}

pub record TWeightSelector {ℓ} (A : Type ℓ) : Type ℓ where
  pub kind : RandomKind
  pub static : XWeight A

pub data SelectorError : Type 0 where
  empty_list bad_weight : SelectorError

pub data Built {ℓ} (A : Type ℓ) : Type ℓ where
  built : A → Built A
  refused : SelectorError → Built A

module _ {ℓ} {A : Type ℓ} where
  -- The order is that in which Go visits the map.
  unfoldable pub map_to_weight_list : Table A ℤ → List (TWeight A)
  map_to_weight_list m = map (λ e. record { weight = e.1; item = e.0 }) m

  abbrev pub all_positive : List (TWeight A) → Bool
  all_positive [] = true
  all_positive (w ∷ ws) = not (leb_ℤ w.weight (pos 0)) && all_positive ws

  unfoldable pub new_weight_selector : List (TWeight A) → RandomKind → Built (TWeightSelector A)
  unfolding new_x_weight
  new_weight_selector list kind =
      if is_empty list
      then refused empty_list
      else if all_positive list
      then built (record { kind = kind; static = new_x_weight list })
      else refused bad_weight

  -- The item alone, without its index.
  abbrev pub item_of : Option (A × ℕ) → Option A
  item_of none = none
  item_of (some (a, i)) = some a

  abbrev pub take_out : XWeight A → Option (A × ℕ) → Option A × XWeight A
  take_out x none = (none, x)
  take_out x (some (a, i)) = elim (get_elem? x.ws i) [
    | none ↦ (none, x)
    | some w ↦ (some a, record x { ws = swap_out i w x.ws; total = wrap32 (x.total -ℤ w.weight) })
  ]

  abbrev pub yielded : Option A → List A → List A
  yielded none items = items
  yielded (some a) items = a ∷ items

  abbrev pub work_state : XWeight A → XWeight A
  work_state x = record x { prefix = [] }

  abbrev one_item : Option A → List A
  one_item none = []
  one_item (some a) = a ∷ []

module _ {ℓ} {S : Type 0} (source : Source S) {A : Type ℓ} where
  unfoldable pub rand_prob : List (TWeight A) → S → List A × S
  rand_prob [] s = ([], s)
  rand_prob (w ∷ ws) s =
      let (n, s₁) = source.int32_n max_weight s in
      let (items, s₂) = rand_prob ws s₁ in (if ltb_ℤ n w.weight then w.item ∷ items else items, s₂)

  unfoldable pub rand_merge_one_static : XWeight A → S → Option A × S
  unfolding pick_static
  rand_merge_one_static x s =
      if leb_ℤ x.total (pos 0) || is_empty x.ws
      then (none, s)
      else (let (n, s₁) = source.int32_n x.total s in (item_of (pick_static x n), s₁))

  unfoldable pub rand_merge_one_work_state : XWeight A → S → Option A × XWeight A × S
  unfolding pick_work swap_out
  rand_merge_one_work_state x s =
      if leb_ℤ x.total (pos 0) || is_empty x.ws
      then (none, x, s)
      else (let (n, s₁) = source.int32_n x.total s in
          let (o, x₁) = take_out x (pick_work x n) in (o, x₁, s₁))

  -- So many rounds.
  unfoldable pub static_rounds : ℕ → XWeight A → S → List A × S
  static_rounds zero x s = ([], s)
  static_rounds (suc num) x s =
      let (o, s₁) = rand_merge_one_static x s in
      let (items, s₂) = static_rounds num x s₁ in (yielded o items, s₂)

  -- A round that finds nothing ends the loop.
  unfoldable pub work_rounds : ℕ → XWeight A → S → List A × S
  work_rounds zero x s = ([], s)
  work_rounds (suc num) x s =
      let (o, x₁, s₁) = rand_merge_one_work_state x s in
      let rest = work_rounds num x₁ s₁ in elim o [ none ↦ ([], s₁) | some a ↦ (a ∷ rest.0, rest.1) ]

  unfoldable pub rand_merge_n_for_each : XWeight A → ℤ → Bool → S → List A × S
  unfolding static_rounds work_rounds rand_merge_one_static rand_merge_one_work_state
  rand_merge_n_for_each x num repeat s =
      if leb_ℤ num (pos 0)
      then ([], s)
      else if repeat || eqb_ℤ num (pos 1)
      then static_rounds (pos_part num) x s
      else work_rounds (pos_part num) (work_state x) s

  unfoldable pub prob_rounds : ℕ → List (TWeight A) → S → List A × S
  unfolding rand_prob
  prob_rounds zero ws s = ([], s)
  prob_rounds (suc num) ws s =
      let (items, s₁) = rand_prob ws s in
      let (more, s₂) = prob_rounds num ws s₁ in (items ++ more, s₂)

  -- `none` is a panic.
  unfoldable pub rand_weight : TWeightSelector A → S → Option (List A × S)
  unfolding rand_merge_one_static rand_prob
  rand_weight sel s = if is_empty sel.static.ws then some ([], s) else (elim sel.kind [
    | merge ↦ let (o, s₁) = rand_merge_one_static sel.static s in some (one_item o, s₁)
    | prob ↦ some (rand_prob sel.static.ws s)
    | invalid ↦ none
  ])

  unfoldable pub random_weight_n : TWeightSelector A → ℤ → Bool → S → Option (List A × S)
  unfolding rand_merge_n_for_each prob_rounds
  random_weight_n sel num repeat s = if leb_ℤ num (pos 0) then some ([], s) else (elim sel.kind [
    | merge ↦ some (rand_merge_n_for_each sel.static num repeat s)
    | prob ↦ some (prob_rounds (pos_part num) sel.static.ws s)
    | invalid ↦ none
  ])
