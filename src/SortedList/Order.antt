-- ===== src/SortedList/Order.antt =====
-- src/deps/basal/sortedlist.go: a list through any calls.
use heli.Common.{
  ◌&&◌, ◌-◌, not, ℕ, ℤ, Bool, true, false, List, [], ◌∷◌, ltb, length, ◌≡◌, ◌⊎◌, refl, sym, subst,
  inl, inr, arith, Bool-cases, Option-cases,
}
use mathlib.Core.List.{Perm}
use heli.SortedList.{
  SortedList, insert_at, remove_at, index_within, new_sorted_list, pop_front, pop_back,
  remove_by_index, clear, search_key, remove_by_key, batch_remove_by_keys, search_by_score, add,
  add_found, remove_by_score,
}
use heli.SortedList.Places.{
  Ordered, Distinct, place_of, has_score, place-element, search_by_score-place,
}
use heli.SortedList.Kept.{
  place-Ordered, remove_at-Ordered, insert_at-Distinct, remove_at-Distinct, insert_at-perm,
  remove_at-perm,
}

pub data ListCall {ℓ} (A : Type ℓ) : Type ℓ where
  adds : A → ListCall A
  removes_by_index removes_by_score removes_by_key : ℤ → ListCall A
  removes_by_keys : List ℤ → ListCall A
  pops_front pops_back clears : ListCall A

module _ {ℓ} {A : Type ℓ} (get_score get_key : A → ℤ) where
  unfoldable pub call : ListCall A → SortedList A → SortedList A
  unfolding add remove_by_index remove_by_score remove_by_key batch_remove_by_keys pop_front
      pop_back clear
  call (adds v) l = (add get_score v l).0
  call (removes_by_index i) l = (remove_by_index i l).0
  call (removes_by_score s) l = (remove_by_score get_score s l).0
  call (removes_by_key k) l = (remove_by_key get_key k l).0
  call (removes_by_keys ks) l = batch_remove_by_keys get_key ks l
  call pops_front l = (pop_front l).0
  call pops_back l = (pop_back l).0
  call clears l = clear l

  unfoldable pub call_all : List (ListCall A) → SortedList A → SortedList A
  unfolding call
  call_all [] l = l
  call_all (c ∷ cs) l = call_all cs (call c l)

  module _ (score_repeat reverse : Bool) where
    -- The list is in its order, and has no score twice unless it may.
    record InOrder (l : SortedList A) : Type 0 where
      repeats : l.score_repeat ≡ score_repeat
      reverses : l.reverse ≡ reverse
      ordered : Ordered get_score reverse l.buf
      distinct : score_repeat ≡ false → Distinct get_score reverse l.buf

    removed-InOrder :
        (i : ℕ) (l : SortedList A) → InOrder l → InOrder (record l { buf = remove_at i l.buf })
    removed-InOrder i l o = record {
      repeats = o.repeats;
      reverses = o.reverses;
      ordered = remove_at-Ordered get_score reverse i l.buf o.ordered;
      distinct = λ h. remove_at-Distinct get_score reverse i l.buf (o.distinct h);
    }

    added-InOrder :
        (v : A) (l : SortedList A)
        → InOrder l
        → (has_score get_score reverse (get_score v) l.buf && not score_repeat) ≡ false
        → InOrder
            (record l { buf = insert_at (place_of get_score reverse (get_score v) l.buf) v l.buf })
    added-InOrder v l o free = record {
      repeats = o.repeats;
      reverses = o.reverses;
      ordered = place-Ordered get_score reverse v l.buf o.ordered;
      distinct = λ h.
          insert_at-Distinct get_score reverse (place_of get_score reverse (get_score v) l.buf) v
            l.buf (ground arith) (o.distinct h);
    }

    put-InOrder :
        (v : A) (l : SortedList A)
        → InOrder l
        → InOrder
            (add_found v
              (
                place_of get_score reverse (get_score v) l.buf,
                has_score get_score reverse (get_score v) l.buf,
              )
              l).0
    unfolding add_found
    put-InOrder v l o =
        let has = has_score get_score reverse (get_score v) l.buf in
        elim (Bool-cases (has && not l.score_repeat)) [
          | inl refused ↦ rw refused o
          | inr free ↦
              rw free
                (added-InOrder v l o (subst (λ (b : Bool). (has && not b) ≡ false) o.repeats free))
        ]

    add-InOrder : (v : A) (l : SortedList A) → InOrder l → InOrder (add get_score v l).0
    unfolding add
    add-InOrder v l o =
        let found = search_by_score-place get_score reverse (get_score v) l o.reverses o.ordered in
        subst (λ (r : ℕ × Bool). InOrder (add_found v r l).0) (sym found) (put-InOrder v l o)

    key-InOrder : (k : ℤ) (l : SortedList A) → InOrder l → InOrder (remove_by_key get_key k l).0
    unfolding remove_by_key
    key-InOrder k l o = elim (Option-cases (search_key get_key k l.buf)) [
      | inl absent ↦ rw (remove_by_key, absent) o
      | inr (i, here) ↦ rw (remove_by_key, here) (removed-InOrder i l o)
    ]

    keys-InOrder :
        (ks : List ℤ) (l : SortedList A) → InOrder l → InOrder (batch_remove_by_keys get_key ks l)
    unfolding batch_remove_by_keys
    keys-InOrder [] l o = o
    keys-InOrder (k ∷ ks) l o = keys-InOrder ks (remove_by_key get_key k l).0 (key-InOrder k l o)

    index-InOrder : (i : ℤ) (l : SortedList A) → InOrder l → InOrder (remove_by_index i l).0
    unfolding remove_by_index
    index-InOrder i l o = elim (Option-cases (index_within i (length l.buf))) [
      | inl absent ↦ rw (remove_by_index, absent) o
      | inr (i', here) ↦ rw (remove_by_index, here) (removed-InOrder i' l o)
    ]

    score-InOrder :
        (s : ℤ) (l : SortedList A) → InOrder l → InOrder (remove_by_score get_score s l).0
    unfolding remove_by_score
    score-InOrder s l o =
        let (index, found) = search_by_score get_score s l in
        elim (Bool-cases found) [
          | inl here ↦ rw (remove_by_score, here) (removed-InOrder index l o)
          | inr absent ↦ rw (remove_by_score, absent) o
        ]

    call-InOrder : (c : ListCall A) (l : SortedList A) → InOrder l → InOrder (call c l)
    unfolding call
    call-InOrder (adds v) l o = add-InOrder v l o
    call-InOrder (removes_by_index i) l o = index-InOrder i l o
    call-InOrder (removes_by_score s) l o = score-InOrder s l o
    call-InOrder (removes_by_key k) l o = key-InOrder k l o
    call-InOrder (removes_by_keys ks) l o = keys-InOrder ks l o
    call-InOrder pops_front l o = elim (Bool-cases (ltb 0 (length l.buf))) [
      | inl some_left ↦ rw (call, some_left) (removed-InOrder 0 l o)
      | inr empty ↦ rw (call, empty) o
    ]
    call-InOrder pops_back l o = elim (Bool-cases (ltb 0 (length l.buf))) [
      | inl some_left ↦ rw (call, some_left) (removed-InOrder (length l.buf - 1) l o)
      | inr empty ↦ rw (call, empty) o
    ]
    call-InOrder clears l o = record {
      repeats = o.repeats;
      reverses = o.reverses;
      ordered = tt;
      distinct = λ h. tt;
    }

    calls-InOrder :
        (cs : List (ListCall A)) (l : SortedList A) → InOrder l → InOrder (call_all cs l)
    unfolding call_all
    calls-InOrder [] l o = o
    calls-InOrder (c ∷ cs) l o = calls-InOrder cs (call c l) (call-InOrder c l o)

    -- What an answer of Add says.
    abbrev pub Added : A → SortedList A → SortedList A × Bool → Type ℓ
    Added v l (l', answer) =
        ((answer ≡ true) × Perm l'.buf (v ∷ l.buf))
        ⊎ ((answer ≡ false) × (l' ≡ l) × (has_score get_score reverse (get_score v) l.buf ≡ true))

    put-Added :
        (v : A) (i : ℕ) (l : SortedList A)
        → Added v l (add_found v (i, has_score get_score reverse (get_score v) l.buf) l)
    unfolding add_found
    put-Added v i l =
        let has = has_score get_score reverse (get_score v) l.buf in
        elim (Bool-cases (has && not l.score_repeat)) [
          | inl refused ↦ rw refused (inr (refl, refl, ground arith))
          | inr free ↦ rw free (inl (refl, insert_at-perm i v l.buf))
        ]

    add-Added : (v : A) (l : SortedList A) → InOrder l → Added v l (add get_score v l)
    unfolding add
    add-Added v l o =
        subst (λ (r : ℕ × Bool). Added v l (add_found v r l))
          (sym (search_by_score-place get_score reverse (get_score v) l o.reverses o.ordered))
          (put-Added v (place_of get_score reverse (get_score v) l.buf) l)

    -- What an answer of RemoveByScore says.
    abbrev pub Removed : ℤ → SortedList A → SortedList A × Bool → Type ℓ
    Removed score l (l', answer) =
        ((answer ≡ true) × (v : A) × (get_score v ≡ score) × Perm (v ∷ l'.buf) l.buf)
        ⊎ ((answer ≡ false) × (l' ≡ l) × (has_score get_score reverse score l.buf ≡ false))

    remove-Removed :
        (score : ℤ) (l : SortedList A)
        → InOrder l
        → Removed score l (remove_by_score get_score score l)
    unfolding remove_by_score
    remove-Removed score l o =
        let at = search_by_score-place get_score reverse score l o.reverses o.ordered in
        elim (Bool-cases (has_score get_score reverse score l.buf)) [
          | inr absent ↦ rw (at, absent) (inr (refl, refl, refl))
          | inl present ↦
              let (v, here, same) = place-element get_score reverse score l.buf o.ordered present in
              let place = place_of get_score reverse score l.buf in
              rw (at, present) (inl (refl, v, same, remove_at-perm place v l.buf here))
        ]

    -- After any calls on a new list but of BatchAdd: the list is in its order, the scores rising or, in
    -- reverse, falling, and no score stands twice unless the list was made to repeat scores; SearchByScore says of
    -- every score whether some element has it, and the first place at which it could stand; Add puts in the element
    -- and loses none, or answers false, for a score that is there and may not repeat, and changes nothing; and
    -- RemoveByScore takes out one element of that score, or answers false if none has it and changes nothing.
    pub calls_sorted :
        (cs : List (ListCall A))
        → let l = call_all cs (new_sorted_list score_repeat reverse) in
          Ordered get_score reverse l.buf
          × (score_repeat ≡ false → Distinct get_score reverse l.buf)
          × ((score : ℤ)
              → search_by_score get_score score l
                ≡ (place_of get_score reverse score l.buf, has_score get_score reverse score l.buf))
          × ((v : A) → Added v l (add get_score v l))
          × ((score : ℤ) → Removed score l (remove_by_score get_score score l))
    calls_sorted cs =
        let l = call_all cs (new_sorted_list score_repeat reverse) in
        let start : InOrder (new_sorted_list score_repeat reverse) =
          unfold new_sorted_list in
          (record { repeats = refl; reverses = refl; ordered = tt; distinct = λ h. tt }) in
        let o = calls-InOrder cs (new_sorted_list score_repeat reverse) start in
        (
          o.ordered,
          o.distinct,
          (λ score. search_by_score-place get_score reverse score l o.reverses o.ordered),
          (λ v. add-Added v l o),
          (λ score. remove-Removed score l o),
        )
