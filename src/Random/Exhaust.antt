-- ===== src/Random/Exhaust.antt =====
-- src/configdoc/config_random_mode.go: a draw without replacement goes on as long as anything is left.
use mathlib.Core.List.{Perm, Permᴰ}
use mathlib.Core.List.Perm
use mathlib.Core.Logic.{∥∥₁_elim}
use native.Mathlib.Nat.{ℕ_set}
use heli.Common.{
  ℕ, zero, suc, ◌+◌, ◌^◌, ◌≤◌, ◌<◌, ℤ, pos, negsuc, pos_part, neg_part, ltb_ℤ, leb_ℤ, eqb_ℤ, ◌<ℤ◌,
  ◌≤ℤ◌, ◌-ℤ◌, wrap32, wrap32_id, int_laws, List, [], ◌∷◌, ◌++◌, true, false, Option, none, some,
  ◌≡◌, refl, sym, ap, ◌∙◌, subst, inl, inr, arith, leb, ltb, Bool-cases, length, get_elem?, All,
  if◌then◌else◌,
}
use heli.Random.Weights.{
  TWeight, XWeight, Source, merge, is_empty, new_x_weight, swap_out, scan, pick_work,
}
use heli.Random.Select.{
  TWeightSelector, built, new_weight_selector, all_positive, take_out, rand_merge_one_work_state,
  work_rounds, work_state, rand_merge_n_for_each, random_weight_n,
}
use heli.Random.Pick.{sum, Positive, add-weight, Fits, total_from-sum}
use heli.Random.Draw.{items, swap_out-perm, scan-named}

neg_part-zero : (z : ℤ) → pos 0 <ℤ z → neg_part z ≡ 0
neg_part-zero (pos n) p = refl
neg_part-zero (negsuc n) p = absurd (omega arith)

natural : (z t : ℤ) (n : ℕ) → pos 0 ≤ℤ z → z <ℤ t → t ≡ pos n → (k : ℕ) × (z ≡ pos k) × (k < n)
natural (pos k) t n h l e = let p = ap pos_part e in let q = ap neg_part e in (k, refl, omega arith)
natural (negsuc k) t n h l e = absurd (omega arith)

-- So many rounds, or as many as there are entries.
abbrev pub count_drawn : ℕ → ℕ → ℕ
count_drawn num size = if leb num size then num else size

module _ {ℓ} {A : Type ℓ} where
  abbrev measure : (TWeight A → ℕ) → List (TWeight A) → ℕ
  measure f [] = 0
  measure f (w ∷ ws) = f w + measure f ws

  measure-permᴰ :
      (f : TWeight A → ℕ) {xs ys : List (TWeight A)} → Permᴰ xs ys → measure f xs ≡ measure f ys
  measure-permᴰ f Permᴰ.nil = refl
  measure-permᴰ f (Permᴰ.cons e p) = omega (arith, ap f e, measure-permᴰ f p)
  measure-permᴰ f (Permᴰ.swap e e') = omega (arith, ap f e, ap f e')
  measure-permᴰ f (Permᴰ.trans p q) = measure-permᴰ f p ∙ measure-permᴰ f q

  measure-perm :
      (f : TWeight A → ℕ) (xs ys : List (TWeight A)) → Perm xs ys → measure f xs ≡ measure f ys
  measure-perm f xs ys p = ∥∥₁_elim p (ℕ_set _ _) (λ d. measure-permᴰ f d)

  abbrev amount : TWeight A → ℕ
  amount w = pos_part w.weight

  abbrev bad : TWeight A → ℕ
  bad w = if ltb_ℤ (pos 0) w.weight then 0 else 1

  sum-measure : (ws : List (TWeight A)) → sum ws ≡ measure amount ws
  sum-measure [] = refl
  sum-measure (w ∷ ws) = omega (arith, sum-measure ws)

  length-measure : (ws : List (TWeight A)) → length ws ≡ measure (λ w. 1) ws
  length-measure [] = refl
  length-measure (w ∷ ws) = omega (arith, length-measure ws)

  none_bad : (ws : List (TWeight A)) → All Positive ws → measure bad ws ≡ 0
  none_bad [] p = refl
  none_bad (w ∷ ws) (p, ps) = ground (arith, none_bad ws ps)

  every_good : (ws : List (TWeight A)) → measure bad ws ≡ 0 → All Positive ws
  every_good [] h = tt
  every_good (w ∷ ws) h = (ground arith, every_good ws (ground arith))

  -- The total is that of the weights.
  record Ready (x : XWeight A) : Type 0 where
    fits : Fits x.ws
    totals : x.total ≡ pos (sum x.ws)

  scan-hits :
      (ws : List (TWeight A)) (n s i : ℕ)
      → All Positive ws
      → s + sum ws < 2 ^ 31
      → s ≤ n
      → n < s + sum ws
      → (p : A × ℕ) × (scan (pos n) (pos s) i ws ≡ some p)
  unfolding scan
  scan-hits [] n s i ps small from h = absurd (omega arith)
  scan-hits (w ∷ ws) n s i (p, ps) small from h =
      let s' = s + pos_part w.weight in
      rw (add-weight s w p (omega arith)) (elim (Bool-cases (ltb_ℤ (pos n) (pos s'))) [
        | inl here ↦ rw here ((w.item, i), refl)
        | inr later ↦
            rw later (scan-hits ws n s' (suc i) ps (omega arith) (ground arith) (omega arith))
      ])

  left-Ready :
      (x : XWeight A) (k : ℕ) (w : TWeight A)
      → Ready x
      → get_elem? x.ws k ≡ some w
      → (let x₁ : XWeight A = record x {
        ws = swap_out k w x.ws;
        total = wrap32 (x.total -ℤ w.weight);
      } in
          Ready x₁ × (suc (length x₁.ws) ≡ length x.ws))
  left-Ready x k w r there =
      let perm = swap_out-perm x.ws k w there in
      let left = swap_out k w x.ws in
      let sums = measure-perm amount (w ∷ left) x.ws perm in
      let bads = measure-perm bad (w ∷ left) x.ws perm in
      let sizes = measure-perm (λ _. 1) (w ∷ left) x.ws perm in
      let sum_left = sum-measure left in
      let sum_all = sum-measure x.ws in
      let length_left = length-measure left in
      let length_all = length-measure x.ws in
      let good = none_bad x.ws r.fits.positive in
      let small = r.fits.small in
      let good_w : bad w ≡ 0 = omega arith in
      let positive_w : Positive w = ground arith in
      let no_part = neg_part-zero w.weight positive_w in
      let rest : x.total -ℤ w.weight ≡ pos (sum left) = rw r.totals (omega int_laws) in
      (
        record {
          fits = record { positive = every_good left (omega arith); small = omega arith };
          totals = ap wrap32 rest ∙ wrap32_id (pos (sum left)) (omega arith);
        },
        omega arith,
      )

  -- A round on entries that are not empty takes one of them out.
  record Drew (x : XWeight A) (o : Option A) (x₁ : XWeight A) : Type ℓ where
    drawn : A
    is_drawn : o ≡ some drawn
    perm : Perm (drawn ∷ items x₁.ws) (items x.ws)
    ready : Ready x₁
    fewer : suc (length x₁.ws) ≡ length x.ws

  taken-Drew :
      (x : XWeight A) (a : A) (k : ℕ) (w : TWeight A)
      → Ready x
      → get_elem? x.ws k ≡ some w
      → w.item ≡ a
      → Drew x (take_out x (some (a, k))).0 (take_out x (some (a, k))).1
  taken-Drew x a k w r there is_a =
      let x₁ : XWeight A = record x {
        ws = swap_out k w x.ws;
        total = wrap32 (x.total -ℤ w.weight);
      } in
      let taken : take_out x (some (a, k)) ≡ (some a, x₁) = ground arith in
      let (ready, fewer) = left-Ready x k w r there in
      let all : Drew x (some a) x₁ = record {
        drawn = a;
        is_drawn = refl;
        perm = rw (← is_a) (Perm.map (λ (v : TWeight A). v.item) (swap_out-perm x.ws k w there));
        ready = ready;
        fewer = fewer;
      } in
      subst (λ (p : Option A × XWeight A). Drew x p.0 p.1) (sym taken) all

  not_empty :
      (ws : List (TWeight A))
      → All Positive ws
      → 0 < length ws
      → (is_empty ws ≡ false) × (0 < sum ws)
  not_empty [] p h = absurd (omega arith)
  not_empty (w ∷ ws) p h = (refl, omega arith)

  round-Drew :
      {S : Type 0} (source : Source S) (x : XWeight A) (s : S)
      → Ready x
      → 0 < length x.ws
      → Drew x (rand_merge_one_work_state source x s).0 (rand_merge_one_work_state source x s).1
  unfolding rand_merge_one_work_state pick_work
  round-Drew source x s r more =
      let (filled, some_sum) = not_empty x.ws r.fits.positive more in
      let go_on : leb_ℤ x.total (pos 0) ≡ false = rw r.totals (ground arith) in
      let (lo, hi) = source.int32_n_range x.total s (rw r.totals (omega arith)) in
      let (n, is_n, small) =
        natural (source.int32_n x.total s).0 x.total (sum x.ws) lo hi r.totals in
      let ((a, k), hit) =
        scan-hits x.ws n 0 0 r.fits.positive (let f = r.fits.small in omega arith) (omega arith)
          (omega arith) in
      let (w, there, is_a) = scan-named x (pos n) a k hit in
      rw (go_on, filled, is_n, hit) (taken-Drew x a k w r there is_a)

  empty_list : (ws : List (TWeight A)) → length ws ≡ 0 → is_empty ws ≡ true
  empty_list [] h = refl
  empty_list (w ∷ ws) h = absurd (omega arith)

  round-none :
      {S : Type 0} (source : Source S) (x : XWeight A) (s : S)
      → length x.ws ≡ 0
      → (rand_merge_one_work_state source x s).0 ≡ none
  unfolding rand_merge_one_work_state
  round-none source x s h = ground (arith, empty_list x.ws h)

  rounds-none :
      {S : Type 0} (source : Source S) (num : ℕ) (x : XWeight A) (s : S)
      → (rand_merge_one_work_state source x s).0 ≡ none
      → (work_rounds source (suc num) x s).0 ≡ []
  unfolding work_rounds
  rounds-none source num x s h = ground arith

  rounds-some :
      {S : Type 0} (source : Source S) (num : ℕ) (x : XWeight A) (s : S) (a : A)
      → (rand_merge_one_work_state source x s).0 ≡ some a
      → (let step = rand_merge_one_work_state source x s in
          (work_rounds source (suc num) x s).0 ≡ a ∷ (work_rounds source num step.1 step.2).0)
  unfolding work_rounds
  rounds-some source num x s a h = ground arith

  work_rounds-lem :
      {S : Type 0} (source : Source S) (num : ℕ) (x : XWeight A) (s : S)
      → Ready x
      → (left : List A) × Perm ((work_rounds source num x s).0 ++ left) (items x.ws)
        × (length (work_rounds source num x s).0 ≡ count_drawn num (length x.ws))
  unfolding work_rounds
  work_rounds-lem source zero x s r = (items x.ws, Perm.refl (items x.ws), ground arith)
  work_rounds-lem source (suc num) x s r = elim (Bool-cases (ltb 0 (length x.ws))) [
    | inl more ↦
        let d = round-Drew source x s r (ground arith) in
        let step = rand_merge_one_work_state source x s in
        let (left, perm, size) = work_rounds-lem source num step.1 step.2 d.ready in
        let fewer = d.fewer in
        rw (rounds-some source num x s d.drawn d.is_drawn)
          (left, Perm.trans (Perm.cons d.drawn perm) d.perm, ground arith)
    | inr none_left ↦
        let gone : length x.ws ≡ 0 = ground arith in
        rw (rounds-none source num x s (round-none source x s gone))
          (items x.ws, Perm.refl (items x.ws), ground arith)
  ]

  all_positive-All : (ws : List (TWeight A)) → all_positive ws ≡ true → All Positive ws
  all_positive-All [] h = tt
  all_positive-All (w ∷ ws) h = (ground arith, all_positive-All ws (ground arith))

  built-Ready :
      (list : List (TWeight A)) (sel : TWeightSelector A)
      → new_weight_selector list merge ≡ built sel
      → sum list < 2 ^ 31
      → (sel.kind ≡ merge) × (sel.static.ws ≡ list) × Ready (work_state sel.static)
  unfolding new_weight_selector
  built-Ready list sel h small = elim (Bool-cases (is_empty list)) [
    | inl nothing ↦ absurd (ground arith)
    | inr something ↦ elim (Bool-cases (all_positive list)) [
      | inr rejected ↦ absurd (ground arith)
      | inl accepted ↦
          let positive = all_positive-All list accepted in
          let made : sel ≡ record { kind = merge; static = new_x_weight list } = ground arith in
          let totals = total_from-sum list 0 positive (omega arith) in
          subst
            (λ (t : TWeightSelector A).
              (t.kind ≡ merge) × (t.static.ws ≡ list) × Ready (work_state t.static))
            (sym made)
            (
              refl,
              refl,
              record {
                fits = record { positive = positive; small = small };
                totals = totals ∙ ap pos (omega arith);
              },
            )
    ]
  ]

  -- A selector of the kind that merges, built from a list whose weights add up to an int32, when it is asked
  -- for two or more items without repetition: it returns as many as it was asked for, or as many as there
  -- are, and together with some that are left they are the items of the list, each as often as there. So no
  -- entry is drawn twice.
  pub draws_without_replacement :
      {S : Type 0} (source : Source S) (list : List (TWeight A)) (sel : TWeightSelector A) (num : ℕ)
      (s : S)
      → new_weight_selector list merge ≡ built sel
      → sum list < 2 ^ 31
      → 2 ≤ num
      → (out : List A × S) × (random_weight_n source sel (pos num) false s ≡ some out)
        × (length out.0 ≡ count_drawn num (length list))
        × (left : List A) × Perm (out.0 ++ left) (items list)
  unfolding random_weight_n
  draws_without_replacement source list sel num s made small many =
      let (kind, ws, ready) = built-Ready list sel made small in
      let (left, perm, size) = work_rounds-lem source num (work_state sel.static) s ready in
      (
        work_rounds source num (work_state sel.static) s,
        (let go_on : leb_ℤ (pos num) (pos 0) ≡ false = ground arith in
            let several : eqb_ℤ (pos num) (pos 1) ≡ false = unfold eqb_ℤ in ground arith in
            unfold rand_merge_n_for_each in rw (go_on, kind, several) (rw go_on refl)),
        size ∙ ap (λ (l : List (TWeight A)). count_drawn num (length l)) ws,
        left,
        subst
            (λ (l : List (TWeight A)).
              Perm ((work_rounds source num (work_state sel.static) s).0 ++ left) (items l))
            ws perm,
      )
