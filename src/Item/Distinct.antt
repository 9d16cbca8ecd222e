-- ===== src/Item/Distinct.antt =====
-- The values of a merged map of items, of src/configdoc/config_func.go: each id once.
use heli.Common.{
  ◌+◌, pos_part, neg_part, subst, ℤ, pos, ◌+ℤ◌, eqb_ℤ, eqb_ℤ_iff, Bool, true, false, List, [], ◌∷◌,
  none, ◌≡◌, ◌≢◌, refl, sym, inl, inr, arith, go_laws, if◌then◌else◌, int_eq, Bool-cases, All,
}
use heli.Common.Table.{Table, find, Unique}
use heli.Item.Pack.{Item}
use heli.Item.Merge.{item_map_to_slice}
use heli.Item.Counts.{num_at}
use heli.Item.Totals.{Proper, Entry, total_of}

-- No two items of the list have the same id.
abbrev pub Distinct : List Item → Type 0
Distinct [] = Unit
Distinct (it ∷ items) = All (λ (other : Item). it.conf_id ≢ other.conf_id) items × Distinct items

pub slice-Fresh :
    (k : ℤ) (m : Table ℤ Item)
    → find k m ≡ none
    → All Entry m
    → All (λ (other : Item). k ≢ other.conf_id) (item_map_to_slice m)
unfolding item_map_to_slice find
slice-Fresh k [] h a = tt
slice-Fresh k ((j, it) ∷ m) h ((named, p), a) = elim (Bool-cases (eqb_ℤ j k)) [
  | inl same ↦ absurd (ground arith)
  | inr other ↦ (λ e. ground (arith, eqb_ℤ_iff j k), slice-Fresh k m (ground arith) a)
]

pub slice-Distinct : (m : Table ℤ Item) → Unique m → All Entry m → Distinct (item_map_to_slice m)
unfolding item_map_to_slice
slice-Distinct [] u a = tt
slice-Distinct ((k, it) ∷ m) (fresh, u) ((named, p), a) =
    (rw named (slice-Fresh k m fresh a), slice-Distinct m u a)

-- In a list without repetitions the total of an id is the number of its one item.
pub total_of-fresh :
    (id : ℤ) (items : List Item)
    → All (λ (other : Item). id ≢ other.conf_id) items
    → total_of id items ≡ pos 0
total_of-fresh id [] a = refl
total_of-fresh id (it ∷ items) (n, a) = elim (Bool-cases (eqb_ℤ it.conf_id id)) [
  | inl same ↦ absurd (n (sym ((eqb_ℤ_iff it.conf_id id).0 same)))
  | inr other ↦ rw (total_of, other) (total_of-fresh id items a)
]

pub total_of-slice :
    (id : ℤ) (m : Table ℤ Item)
    → Unique m
    → All Entry m
    → total_of id (item_map_to_slice m) ≡ num_at id m
unfolding item_map_to_slice find
total_of-slice id [] u a = refl
total_of-slice id ((k, it) ∷ m) (fresh, u) ((named, p), a) = elim (Bool-cases (eqb_ℤ k id)) [
  | inl same ↦
      let e : k ≡ id = (eqb_ℤ_iff k id).0 same in
      let hit : eqb_ℤ it.conf_id id ≡ true = rw named same in
      let gone : total_of id (item_map_to_slice m) ≡ pos 0 =
        total_of-fresh id (item_map_to_slice m) (rw (sym e) (slice-Fresh k m fresh a)) in
      rw (total_of, num_at, hit, same, gone) (omega go_laws)
  | inr other ↦
      let miss : eqb_ℤ it.conf_id id ≡ false = rw named other in
      let rest = total_of-slice id m u a in rw (total_of, num_at, miss, other) rest
]

-- A sum in the form that linear arithmetic reads.
pub sum_parts :
    (x n y : ℤ)
    → x +ℤ n ≡ y
    → pos_part x + pos_part n + neg_part y ≡ pos_part y + neg_part x + neg_part n
sum_parts x n y h =
    subst (λ (z : ℤ). pos_part x + pos_part n + neg_part z ≡ pos_part z + neg_part x + neg_part n) h
      (omega go_laws)

pub no_more : (x y : ℤ) → x +ℤ pos 0 ≡ y → x ≡ y
no_more x y h = let parts = sum_parts x (pos 0) y h in omega go_laws

pub if_true : (b : Bool) (x n y : ℤ) → b ≡ true → x +ℤ (if b then n else pos 0) ≡ y → x +ℤ n ≡ y
if_true true x n y e h = h
if_true false x n y e h = absurd (ground arith)

pub if_false : (b : Bool) (x n y : ℤ) → b ≡ false → x +ℤ (if b then n else pos 0) ≡ y → x ≡ y
if_false true x n y e h = absurd (ground arith)
if_false false x n y e h = no_more x y h

pub eqb_ne : (a b : ℤ) → a ≢ b → eqb_ℤ a b ≡ false
eqb_ne a b n = elim (Bool-cases (eqb_ℤ a b)) [
  | inl same ↦ absurd (n ((eqb_ℤ_iff a b).0 same))
  | inr other ↦ other
]

pub slice-Proper : (m : Table ℤ Item) → All Entry m → All Proper (item_map_to_slice m)
unfolding item_map_to_slice
slice-Proper [] a = tt
slice-Proper ((k, it) ∷ m) ((named, p), a) = (p, slice-Proper m a)
