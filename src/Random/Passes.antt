-- ===== src/Random/Passes.antt =====
-- src/configdoc/config_random.go: what is drawn past a filter passes it.
use heli.Common.{
  ℕ, zero, suc, ◌-◌, ◌*◌, ◌^◌, ◌<◌, ℤ, Is32, ◌≢◌, Eq, List, [], ◌∷◌, Bool, true, false, not, ◌||◌,
  ◌&&◌, Option, none, some, ◌≡◌, refl, inl, inr, arith, ltb, length, All, All-append, Bool-cases,
  ◌==◌, if◌then◌else◌,
}
use heli.Random.Weights.{
  TWeight, RandomKind, invalid, prob, merge, XWeight, Source, is_empty, new_x_weight,
}
use heli.Random.Select.{
  TWeightSelector, rand_merge_one_static, static_rounds, work_rounds, work_state, prob_rounds,
}
use heli.Random.Filter.{
  weight_filter_contains, allowed, fast_try, fast_rounds, rand_weight_n_by_filter_fast, after,
  go_on, rand_weight_n_by_filter_slow, rand_weight_n_by_filter, should_use_filter_fast,
}
use heli.Random.Members.{AllItems, static_rounds-All, work_rounds-All, prob_rounds-All}

module _ {ℓ} {S : Type 0} (source : Source S) {A : Type ℓ} ⦃e : Eq A⦄ (filter : A → Bool) where
  abbrev Unfiltered : A → Type 0
  Unfiltered a = filter a ≡ false

  allowed-All :
      (repeat : Bool) (exclude : List A) (ws : List (TWeight A))
      → AllItems Unfiltered (allowed repeat filter exclude ws)
  unfolding allowed
  allowed-All repeat exclude [] = tt
  allowed-All repeat exclude (w ∷ ws) = elim (Bool-cases (filter w.item)) [
    | inl hit ↦ rw hit (allowed-All repeat exclude ws)
    | inr miss ↦ elim (Bool-cases (not repeat && weight_filter_contains exclude w.item)) [
      | inl known ↦ rw (miss, known) (allowed-All repeat exclude ws)
      | inr new ↦ rw (miss, new) (miss, allowed-All repeat exclude ws)
    ]
  ]

  fast_try-All :
      (repeat : Bool) (found : List A) (o : Option A)
      → All Unfiltered found
      → All Unfiltered (fast_try repeat filter found o)
  fast_try-All repeat found none ps = ps
  fast_try-All repeat found (some a) ps =
      elim (Bool-cases (filter a || (not repeat && weight_filter_contains found a))) [
        | inl skipped ↦ rw skipped ps
        | inr taken ↦
            let p : filter a ≡ false = ground arith in
            rw taken (All-append Unfiltered found (a ∷ []) ps (p, tt))
      ]

  stopped : (o : Option A) (found rest : List A) → List A
  stopped none found rest = found
  stopped (some a) found rest = rest

  stopped-All :
      (o : Option A) (found rest : List A)
      → All Unfiltered found
      → All Unfiltered rest
      → All Unfiltered (stopped o found rest)
  unfolding stopped
  stopped-All none found rest p q = p
  stopped-All (some a) found rest p q = q

  fast_rounds-All :
      (budget : ℕ) (x : XWeight A) (num : ℕ) (repeat : Bool) (found : List A) (s : S)
      → All Unfiltered found
      → All Unfiltered (fast_rounds source budget x num repeat filter found s).0.0
  unfolding fast_rounds stopped
  fast_rounds-All zero x num repeat found s ps = ps
  fast_rounds-All (suc budget) x num repeat found s ps =
      let step = rand_merge_one_static source x s in
      let next = fast_try repeat filter found step.0 in
      let rest = fast_rounds source budget x num repeat filter next step.1 in
      let rest_pass =
        fast_rounds-All budget x num repeat next step.1 (fast_try-All repeat found step.0 ps) in
      elim (Bool-cases (ltb (length found) num)) [
        | inr enough ↦ rw enough ps
        | inl more ↦
            let same : (fast_rounds source (suc budget) x num repeat filter found s).0.0
                ≡ stopped step.0 found rest.0.0 =
              ground arith in
            rw same (stopped-All step.0 found rest.0.0 ps rest_pass)
      ]

  -- A panic is only for the invalid kind.
  abbrev Passes : RandomKind → Option (List A × S) → Type 0
  Passes kind none = kind ≡ invalid
  Passes kind (some (items, s)) = All Unfiltered items

  slow-Passes :
      (sel : TWeightSelector A) (num : ℕ) (repeat : Bool) (exclude : List A) (s : S)
      → Passes sel.kind (rand_weight_n_by_filter_slow source sel num repeat filter exclude s)
  unfolding rand_weight_n_by_filter_slow new_x_weight
  slow-Passes sel num repeat exclude s =
      let weights = allowed repeat filter exclude sel.static.ws in
      let pass = allowed-All repeat exclude sel.static.ws in
      elim (Bool-cases ((num == 0) || is_empty weights)) [
        | inl nothing ↦ rw nothing tt
        | inr something ↦
            rw something
              (elim sel.kind
                as (λ k. Passes k (elim k [
                  | merge ↦
                      if repeat || (num == 1)
                      then some (static_rounds source num (new_x_weight weights) s)
                      else some (work_rounds source num (work_state (new_x_weight weights)) s)
                  | prob ↦ some (prob_rounds source num weights s)
                  | invalid ↦ none
                ])) [
                  | invalid ↦ refl
                  | prob ↦ prob_rounds-All Unfiltered source num weights s pass
                  | merge ↦ elim (Bool-cases (repeat || (num == 1))) [
                    | inl static ↦
                        rw static
                          (static_rounds-All Unfiltered source num (new_x_weight weights) s pass)
                    | inr work ↦ rw work (
                        work_rounds-All Unfiltered source num (work_state (new_x_weight weights)) s
                          pass)
                  ]
                ])
      ]

  after-Passes :
      (kind : RandomKind) (found : List A) (o : Option (List A × S))
      → All Unfiltered found
      → Passes kind o
      → Passes kind (after found o)
  after-Passes kind found none ps q = q
  after-Passes kind found (some (items, s)) ps q = All-append Unfiltered found items ps q

  go_on-Passes :
      (sel : TWeightSelector A) (num : ℕ) (repeat : Bool) (found : List A) (done : Bool) (s : S)
      → All Unfiltered found
      → Passes sel.kind (go_on source sel num repeat filter ((found, done), s))
  go_on-Passes sel num repeat found true s ps = ps
  go_on-Passes sel num repeat found false s ps =
      after-Passes sel.kind found
        (rand_weight_n_by_filter_slow source sel (num - length found) repeat filter found s) ps
        (slow-Passes sel (num - length found) repeat found s)

  filter-Passes :
      (sel : TWeightSelector A) (num : ℕ) (repeat : Bool) (existing_count : ℤ) (s : S)
      → Passes sel.kind (rand_weight_n_by_filter source sel num repeat existing_count filter s)
  unfolding rand_weight_n_by_filter rand_weight_n_by_filter_fast
  filter-Passes sel num repeat existing_count s = elim (Bool-cases (num == 0)) [
    | inl nothing ↦ rw nothing tt
    | inr something ↦ rw something (
        elim sel.kind
            as (λ k.
              sel.kind ≡ k
              → Passes sel.kind (elim k [
                | merge ↦
                    if should_use_filter_fast sel num repeat existing_count
                    then go_on source sel num repeat filter
                        (rand_weight_n_by_filter_fast source sel num repeat filter s)
                    else rand_weight_n_by_filter_slow source sel num repeat filter [] s
                | prob ↦ rand_weight_n_by_filter_slow source sel num repeat filter [] s
                | invalid ↦ none
              ])) [
                | invalid ↦ λ h. h
                | prob ↦ λ h. slow-Passes sel num repeat [] s
                | merge ↦ λ h.
                    elim (Bool-cases (should_use_filter_fast sel num repeat existing_count)) [
                      | inr slow ↦ rw slow (slow-Passes sel num repeat [] s)
                      | inl fast ↦
                          let tries =
                            fast_rounds source (num * 3) sel.static num repeat filter [] s in
                          rw fast (
                            go_on-Passes sel num repeat tries.0.0 tries.0.1 tries.1
                              (fast_rounds-All (num * 3) sel.static num repeat [] s tt))
                    ]
              ]
          refl)
  ]

  -- A draw past a filter, for an int32 number and an int32 count of what there is already, returns, unless the
  -- selector is of no valid kind, and no item that it returns is one that the filter takes out; so for either way of drawing, with and without repetition, also where the fast
  -- tries give up and the slow way goes on.
  pub rand_weight_n_by_filter_passes :
      (sel : TWeightSelector A) (num : ℕ) (repeat : Bool) (existing_count : ℤ) (s : S)
      → num < 2 ^ 31
      → Is32 existing_count
      → sel.kind ≢ invalid
      → (out : List A × S) × (rand_weight_n_by_filter source sel num repeat existing_count filter s
          ≡ some out)
        × All (λ a. filter a ≡ false) out.0
  rand_weight_n_by_filter_passes sel num repeat existing_count s n32 e32 valid =
      settle (rand_weight_n_by_filter source sel num repeat existing_count filter s)
        (filter-Passes sel num repeat existing_count s)
    where
      settle :
          (o : Option (List A × S))
          → Passes sel.kind o
          → (out : List A × S) × (o ≡ some out) × All (λ a. filter a ≡ false) out.0
      settle none p = absurd (valid p)
      settle (some out) p = (out, refl, p)
