-- ===== src/Random/Members.antt =====
-- src/configdoc/config_random.go: what is drawn is an item of the weights.
use heli.Common.{
  ℕ, zero, suc, ◌-◌, ℤ, pos, leb_ℤ, ltb_ℤ, wrap32, ◌-ℤ◌, List, [], ◌∷◌, ◌||◌, Option, none, some,
  ◌≡◌, refl, sym, subst, inl, inr, arith, length, get_elem?, set, All, All-append, Bool-cases,
  Option-cases,
}
use heli.Random.Weights.{
  TWeight, XWeight, Source, take, is_empty, pick_static, swap_out, with_index, max_weight, scan,
  pick_work,
}
use heli.Random.Select.{
  rand_prob, rand_merge_one_static, rand_merge_one_work_state, take_out, static_rounds, work_rounds,
  prob_rounds, yielded, item_of,
}
use heli.Random.Draw.{scan-named}

module _ {ℓ κ} {A : Type ℓ} (P : A → Type κ) where
  abbrev pub AllItems : List (TWeight A) → Type κ
  AllItems ws = All (λ w. P w.item) ws

  get_elem?-All :
      (ws : List (TWeight A)) (i : ℕ) (w : TWeight A)
      → AllItems ws
      → get_elem? ws i ≡ some w
      → P w.item
  get_elem?-All [] i w p h = absurd (ground arith)
  get_elem?-All (x ∷ ws) zero w (p, ps) h =
      let same : x ≡ w = ground arith in subst (λ (v : TWeight A). P v.item) same p
  get_elem?-All (x ∷ ws) (suc i) w (p, ps) h = get_elem?-All ws i w ps h

  set-All :
      (ws : List (TWeight A)) (i : ℕ) (w : TWeight A)
      → AllItems ws
      → P w.item
      → AllItems (set ws i w)
  set-All [] i w ps p = tt
  set-All (x ∷ ws) zero w (q, ps) p = (p, ps)
  set-All (x ∷ ws) (suc i) w (q, ps) p = (q, set-All ws i w ps p)

  take-All : (n : ℕ) (ws : List (TWeight A)) → AllItems ws → AllItems (take n ws)
  take-All zero ws ps = tt
  take-All (suc n) [] ps = tt
  take-All (suc n) (x ∷ ws) (p, ps) = (p, take-All n ws ps)

  swap_out-All :
      (i : ℕ) (w : TWeight A) (ws : List (TWeight A))
      → AllItems ws
      → P w.item
      → AllItems (swap_out i w ws)
  swap_out-All i w ws ps p = elim (Option-cases (get_elem? ws (length ws - 1))) [
    | inl missing ↦ let same : swap_out i w ws ≡ ws = unfold swap_out in ground arith in rw same ps
    | inr (l, there) ↦
        let last = length ws - 1 in
        let same : swap_out i w ws ≡ take last (set (set ws i l) last w) =
          unfold swap_out in ground arith in
        rw same (
          take-All last (set (set ws i l) last w)
            (set-All (set ws i l) last w (set-All ws i l ps (get_elem?-All ws last l ps there)) p))
  ]

  abbrev Passed : Option A → Type κ
  Passed none = Unit
  Passed (some a) = P a

  with_index-Passed :
      (i : ℕ) (o : Option (TWeight A))
      → ((w : TWeight A) → o ≡ some w → P w.item)
      → Passed (item_of (with_index i o))
  with_index-Passed i none p = tt
  with_index-Passed i (some w) p = p w refl

  pick_static-Passed : (x : XWeight A) (n : ℤ) → AllItems x.ws → Passed (item_of (pick_static x n))
  unfolding pick_static
  pick_static-Passed x n ps = elim (Bool-cases (leb_ℤ x.total (pos 0) || is_empty x.ws)) [
    | inl nothing ↦ rw nothing tt
    | inr something ↦ rw something (with_index-Passed _ _ (λ w h. get_elem?-All x.ws _ w ps h))
  ]

  module _ {S : Type 0} (source : Source S) where
    static-Passed :
        (x : XWeight A) (s : S) → AllItems x.ws → Passed (rand_merge_one_static source x s).0
    unfolding rand_merge_one_static
    static-Passed x s ps = elim (Bool-cases (leb_ℤ x.total (pos 0) || is_empty x.ws)) [
      | inl nothing ↦ rw nothing tt
      | inr something ↦ rw something (with_index-Passed _ _ (λ w h. get_elem?-All x.ws _ w ps h))
    ]

    yielded-All : (o : Option A) (items : List A) → Passed o → All P items → All P (yielded o items)
    yielded-All none items p ps = ps
    yielded-All (some a) items p ps = (p, ps)

    pub static_rounds-All :
        (num : ℕ) (x : XWeight A) (s : S) → AllItems x.ws → All P (static_rounds source num x s).0
    unfolding static_rounds
    static_rounds-All zero x s ps = tt
    static_rounds-All (suc num) x s ps =
        let step = rand_merge_one_static source x s in
        yielded-All step.0 (static_rounds source num x step.1).0 (static-Passed x s ps)
          (static_rounds-All num x step.1 ps)

    take_out-All :
        (x : XWeight A) (o : Option (A × ℕ))
        → AllItems x.ws
        → ((a : A) (k : ℕ)
            → o ≡ some (a, k)
            → (w : TWeight A) × (get_elem? x.ws k ≡ some w) × (w.item ≡ a))
        → Passed (take_out x o).0 × AllItems (take_out x o).1.ws
    take_out-All x none ps named = (tt, ps)
    take_out-All x (some (a, k)) ps named =
        let (w, there, is_a) = named a k refl in
        let left : XWeight A = record x {
          ws = swap_out k w x.ws;
          total = wrap32 (x.total -ℤ w.weight);
        } in
        let taken : take_out x (some (a, k)) ≡ (some a, left) = ground arith in
        let p = get_elem?-All x.ws k w ps there in
        subst (λ (q : Option A × XWeight A). Passed q.0 × AllItems q.1.ws) (sym taken)
          (subst P is_a p, swap_out-All k w x.ws ps p)

    work-Passed :
        (x : XWeight A) (s : S)
        → AllItems x.ws
        → Passed (rand_merge_one_work_state source x s).0
          × AllItems (rand_merge_one_work_state source x s).1.ws
    unfolding rand_merge_one_work_state pick_work
    work-Passed x s ps = elim (Bool-cases (leb_ℤ x.total (pos 0) || is_empty x.ws)) [
      | inl nothing ↦ rw nothing (tt, ps)
      | inr something ↦
          let n = (source.int32_n x.total s).0 in
          rw something (take_out-All x (scan n (pos 0) 0 x.ws) ps (scan-named x n))
    ]

    listed :
        (o : Option A)
        → (items : List A) → Passed o
        → All P items
        → All P (elim o [ none ↦ [] | some a ↦ a ∷ items ])
    listed none items p ps = tt
    listed (some a) items p ps = (p, ps)

    pub work_rounds-All :
        (num : ℕ) (x : XWeight A) (s : S) → AllItems x.ws → All P (work_rounds source num x s).0
    unfolding work_rounds
    work_rounds-All zero x s ps = tt
    work_rounds-All (suc num) x s ps =
        let step = rand_merge_one_work_state source x s in
        let (p, left) = work-Passed x s ps in
        let rest = work_rounds source num step.1 step.2 in
        let rest_pass = work_rounds-All num step.1 step.2 left in
        let same : (work_rounds source (suc num) x s).0
            ≡ elim step.0 [ none ↦ [] | some a ↦ a ∷ rest.0 ] =
          ground arith in
        rw same (listed step.0 rest.0 p rest_pass)

    rand_prob-All : (ws : List (TWeight A)) (s : S) → AllItems ws → All P (rand_prob source ws s).0
    unfolding rand_prob
    rand_prob-All [] s ps = tt
    rand_prob-All (w ∷ ws) s (p, ps) =
        let n = source.int32_n max_weight s in
        let rest = rand_prob-All ws n.1 ps in
        elim (Bool-cases (ltb_ℤ n.0 w.weight)) [
          | inl hit ↦ rw hit (p, rest)
          | inr miss ↦ rw miss rest
        ]

    pub prob_rounds-All :
        (num : ℕ) (ws : List (TWeight A)) (s : S)
        → AllItems ws
        → All P (prob_rounds source num ws s).0
    unfolding prob_rounds
    prob_rounds-All zero ws s ps = tt
    prob_rounds-All (suc num) ws s ps =
        let first = rand_prob source ws s in
        All-append P first.0 (prob_rounds source num ws first.1).0 (rand_prob-All ws s ps)
          (prob_rounds-All num ws first.1 ps)
