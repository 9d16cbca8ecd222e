-- ===== src/Random/Draw.antt =====
-- src/configdoc/config_random_mode.go: drawing without replacement.
use mathlib.Core.List.{Perm}
use mathlib.Core.List.Perm
use heli.Common.{
  ℕ, zero, suc, ◌+◌, ◌-◌, ℤ, pos, leb_ℤ, List, [], ◌∷◌, map, ◌||◌, Option, none, some, ◌≡◌, refl,
  sym, ap, ◌∙◌, subst, inl, inr, arith, Bool-cases, length, get_elem?, get_elem?-some, set, ltb_ℤ,
  add32, wrap32, ◌-ℤ◌,
}
use heli.Random.Weights.{TWeight, XWeight, Source, take, is_empty, swap_out, scan, pick_work}
use heli.Random.Select.{take_out, rand_merge_one_work_state}

module _ {ℓ} {A : Type ℓ} where
  take-set : (n : ℕ) (xs : List A) (v : A) → take n (set xs n v) ≡ take n xs
  take-set zero xs v = refl
  take-set (suc n) [] v = refl
  take-set (suc n) (x ∷ xs) v = ap (◌∷◌ x) (take-set n xs v)

  -- The last element can stand first.
  last_first :
      (last : ℕ) (xs : List A) (l : A)
      → length xs ≡ suc last
      → get_elem? xs last ≡ some l
      → Perm (l ∷ take last xs) xs
  last_first last [] l n h = absurd (ground arith)
  last_first zero (x ∷ []) l n h = let same : x ≡ l = ground arith in rw same (Perm.refl (l ∷ []))
  last_first zero (x ∷ y ∷ ys) l n h = absurd (omega arith)
  last_first (suc last) (x ∷ ys) l n h =
      Perm.trans (Perm.swap x l (take last ys)) (Perm.cons x (last_first last ys l (omega arith) h))

  swap-perm :
      (last : ℕ) (xs : List A) (i : ℕ) (w l : A)
      → length xs ≡ suc last
      → get_elem? xs i ≡ some w
      → get_elem? xs last ≡ some l
      → Perm (w ∷ take last (set (set xs i l) last w)) xs
  swap-perm last [] i w l n h k = absurd (ground arith)
  swap-perm zero (x ∷ []) zero w l n h k =
      let same : x ≡ w = ground arith in rw same (Perm.refl (w ∷ []))
  swap-perm zero (x ∷ []) (suc i) w l n h k = absurd (ground arith)
  swap-perm zero (x ∷ y ∷ ys) i w l n h k = absurd (omega arith)
  swap-perm (suc last) (x ∷ ys) zero w l n h k =
      let same : x ≡ w = ground arith in
      rw (same, take-set last ys w) (Perm.cons w (last_first last ys l (omega arith) k))
  swap-perm (suc last) (x ∷ ys) (suc i) w l n h k =
      Perm.trans (Perm.swap x w (take last (set (set ys i l) last w)))
        (Perm.cons x (swap-perm last ys i w l (omega arith) h k))

  get_elem?-last :
      (last : ℕ) (xs : List A) → length xs ≡ suc last → (l : A) × (get_elem? xs last ≡ some l)
  get_elem?-last last xs n = get_elem?-some xs last (omega arith)

module _ {ℓ} {A : Type ℓ} where
  swap_out-eq :
      (ws : List (TWeight A)) (i last : ℕ) (w l : TWeight A)
      → length ws ≡ suc last
      → get_elem? ws last ≡ some l
      → swap_out i w ws ≡ take last (set (set ws i l) last w)
  unfolding swap_out
  swap_out-eq ws i last w l n at = let e : length ws - 1 ≡ last = omega arith in ground arith

  -- Taking out an entry leaves the others.
  pub swap_out-perm :
      (ws : List (TWeight A)) (i : ℕ) (w : TWeight A)
      → get_elem? ws i ≡ some w
      → Perm (w ∷ swap_out i w ws) ws
  swap_out-perm [] i w h = absurd (ground arith)
  swap_out-perm (x ∷ xs) i w h =
      let (l, at) = get_elem?-last (length xs) (x ∷ xs) refl in
      rw (swap_out-eq (x ∷ xs) i (length xs) w l refl at)
        (swap-perm (length xs) (x ∷ xs) i w l refl h at)

  abbrev pub items : List (TWeight A) → List A
  items ws = map (λ w. w.item) ws

  -- What has been taken out, and what is left, make up what there was.
  abbrev pub Taken : XWeight A → Option A → XWeight A → Type ℓ
  Taken x none x₁ = x₁.ws ≡ x.ws
  Taken x (some a) x₁ = Perm (a ∷ items x₁.ws) (items x.ws)

  scan-item :
      (n sum : ℤ) (i : ℕ) (ws : List (TWeight A)) (a : A) (k : ℕ)
      → scan n sum i ws ≡ some (a, k)
      → (j : ℕ) × (k ≡ i + j) × (w : TWeight A) × (get_elem? ws j ≡ some w) × (w.item ≡ a)
  unfolding scan
  scan-item n sum i [] a k h = absurd (ground arith)
  scan-item n sum i (w ∷ ws) a k h = elim (Bool-cases (ltb_ℤ n (add32 sum w.weight))) [
    | inl here ↦ (0, ground arith, w, refl, ground arith)
    | inr later ↦
        let (j, at, v, there, named) =
          scan-item n (add32 sum w.weight) (suc i) ws a k (ground arith) in
        (suc j, omega arith, v, there, named)
  ]

  pub take_out-Taken :
      (x : XWeight A) (o : Option (A × ℕ))
      → ((a : A) (k : ℕ)
          → o ≡ some (a, k)
          → (w : TWeight A) × (get_elem? x.ws k ≡ some w) × (w.item ≡ a))
      → Taken x (take_out x o).0 (take_out x o).1
  take_out-Taken x none named = refl
  take_out-Taken x (some (a, k)) named =
      let (w, there, is_a) = named a k refl in
      let left : XWeight A = record x {
        ws = swap_out k w x.ws;
        total = wrap32 (x.total -ℤ w.weight);
      } in
      let taken : take_out x (some (a, k)) ≡ (some a, left) = ground arith in
      let all : Perm (a ∷ items left.ws) (items x.ws) =
        subst (λ (b : A). Perm (b ∷ items left.ws) (items x.ws)) is_a
          (Perm.map (λ (v : TWeight A). v.item) (swap_out-perm x.ws k w there)) in
      subst (λ (p : Option A × XWeight A). Taken x p.0 p.1) (sym taken) all

  pub scan-named :
      (x : XWeight A) (n : ℤ) (a : A) (k : ℕ)
      → scan n (pos 0) 0 x.ws ≡ some (a, k)
      → (w : TWeight A) × (get_elem? x.ws k ≡ some w) × (w.item ≡ a)
  scan-named x n a k h =
      let (j, at, w, there, is_a) = scan-item n (pos 0) 0 x.ws a k h in
      let same : k ≡ j = omega arith in (w, ap (get_elem? x.ws) same ∙ there, is_a)

  pub work-Taken :
      {S : Type 0} (source : Source S) (x : XWeight A) (s : S)
      → Taken x (rand_merge_one_work_state source x s).0 (rand_merge_one_work_state source x s).1
  unfolding rand_merge_one_work_state pick_work
  work-Taken source x s = elim (Bool-cases (leb_ℤ x.total (pos 0) || is_empty x.ws)) [
    | inl nothing ↦ rw (nothing, Taken) refl
    | inr something ↦
        let n = (source.int32_n x.total s).0 in
        rw (something, Taken) (take_out-Taken x (scan n (pos 0) 0 x.ws) (scan-named x n))
  ]
