-- ===== src/Item/Totals.antt =====
-- src/configdoc/config_func.go: what `ItemMerge` makes of a list of items.
use heli.Common.{
  ℤ, pos, ◌+ℤ◌, ◌≤ℤ◌, ◌<ℤ◌, Is64, add64_id, eqb_ℤ, eqb_ℤ_iff, List, [], ◌∷◌, ◌≡◌, refl, ap, ◌∙◌,
  inl, inr, go_laws, if◌then◌else◌, int_eq, Bool-cases, Option-cases, All,
}
use heli.Common.Table.{Table, find, Unique, insert-Unique, insert-All, find-All}
use heli.Item.Pack.{Item, build_item}
use heli.Item.Merge.{more, merge_item, merge_items, item_merge}
use heli.Item.Counts.{num_at, num_at-insert}

-- What a list asks for in all of one id, as a whole number without bounds.
abbrev pub total_of : ℤ → List Item → ℤ
total_of id [] = pos 0
total_of id (it ∷ items) =
    if eqb_ℤ it.conf_id id then it.num +ℤ total_of id items else total_of id items

-- An item with an id and a positive number.
pub record Proper (it : Item) : Type 0 where
  pub id_pos : pos 0 <ℤ it.conf_id
  pub num_pos : pos 0 <ℤ it.num

pub total_of-nonneg : (id : ℤ) (items : List Item) → All Proper items → pos 0 ≤ℤ total_of id items
total_of-nonneg id [] a = omega go_laws
total_of-nonneg id (it ∷ items) (p, a) = elim (Bool-cases (eqb_ℤ it.conf_id id)) [
  | inl same ↦
      let rest = total_of-nonneg id items a in
      let n = p.num_pos in rw (total_of, same) (omega go_laws)
  | inr other ↦ rw (total_of, other) (total_of-nonneg id items a)
]

-- An entry stands under its id and is proper.
abbrev pub Entry : ℤ × Item → Type 0
Entry (k, it) = (it.conf_id ≡ k) × Proper it

pub record Merged (m : Table ℤ Item) : Type 0 where
  pub keys : Unique m
  pub entries : All Entry m

num_at-nonneg : (id : ℤ) (m : Table ℤ Item) → All Entry m → pos 0 ≤ℤ num_at id m
num_at-nonneg id m a = elim (Option-cases (find id m)) [
  | inl missing ↦ rw (num_at, missing) (omega go_laws)
  | inr (it, found) ↦
      let n = (find-All Entry id it m a found).1.num_pos in rw (num_at, found) (omega go_laws)
]

-- One round adds the item's number to what its id has.
merge_item_num :
    (item : Item) (m : Table ℤ Item) (id : ℤ)
    → Is64 (num_at item.conf_id m +ℤ item.num)
    → num_at id (merge_item item m)
      ≡ (if eqb_ℤ item.conf_id id then num_at item.conf_id m +ℤ item.num else num_at id m)
unfolding merge_item
merge_item_num item m id fits = elim (Option-cases (find item.conf_id m)) [
  | inl missing ↦
      let nothing : num_at item.conf_id m ≡ pos 0 = rw (num_at, missing) refl in
      rw (missing, merge_item)
        (num_at-insert item.conf_id id (build_item item.conf_id item.num) m
          ∙ rw nothing (
              ap (λ (n : ℤ). if eqb_ℤ item.conf_id id then n else num_at id m) (add_zero item.num)))
  | inr (i, found) ↦
      let held : num_at item.conf_id m ≡ i.num = rw (num_at, found) refl in
      let fits' : Is64 (i.num +ℤ item.num) = rw held at fits in
      rw (found, merge_item)
        (num_at-insert item.conf_id id (more i item.num) m
          ∙ rw held (
              ap (λ (n : ℤ). if eqb_ℤ item.conf_id id then n else num_at id m)
                (add64_id i.num item.num fits')))
]
  where
    add_zero : (n : ℤ) → n ≡ pos 0 +ℤ n
    add_zero n = omega go_laws

merge_item-Merged :
    (item : Item) (m : Table ℤ Item)
    → Proper item
    → Is64 (num_at item.conf_id m +ℤ item.num)
    → Merged m
    → Merged (merge_item item m)
unfolding merge_item
merge_item-Merged item m p fits v = elim (Option-cases (find item.conf_id m)) [
  | inl missing ↦
      rw (missing, merge_item)
        (record {
          keys = insert-Unique item.conf_id _ m v.keys;
          entries =
              insert-All Entry item.conf_id _ m v.entries
                (refl, record { id_pos = p.id_pos; num_pos = p.num_pos });
        })
  | inr (i, found) ↦
      let (named, good) = find-All Entry item.conf_id i m v.entries found in
      let held : num_at item.conf_id m ≡ i.num = rw (num_at, found) refl in
      let fits' : Is64 (i.num +ℤ item.num) = rw held at fits in
      let n = good.num_pos in
      let n' = p.num_pos in
      rw (found, merge_item)
        (record {
          keys = insert-Unique item.conf_id _ m v.keys;
          entries =
              insert-All Entry item.conf_id _ m v.entries
                (named, record { id_pos = good.id_pos; num_pos = omega go_laws });
        })
]

pub merge_items_num :
    (items : List Item) (m : Table ℤ Item)
    → All Proper items
    → Merged m
    → ((id : ℤ) → Is64 (num_at id m +ℤ total_of id items))
    → Merged (merge_items items m)
      × ((id : ℤ) → num_at id (merge_items items m) ≡ num_at id m +ℤ total_of id items)
unfolding merge_items
merge_items_num [] m a v fits = (v, λ id. omega go_laws)
merge_items_num (it ∷ items) m (p, a) v fits =
    let here = (eqb_ℤ_iff it.conf_id it.conf_id).1 refl in
    let n = num_at-nonneg it.conf_id m v.entries in
    let n' = p.num_pos in
    let t = total_of-nonneg it.conf_id items a in
    let all : Is64 (num_at it.conf_id m +ℤ (it.num +ℤ total_of it.conf_id items)) =
      rw here at (fits it.conf_id) in
    let fits₁ : Is64 (num_at it.conf_id m +ℤ it.num) = omega go_laws in
    let round = merge_item_num it m in
    let step : (id : ℤ)
        → num_at id (merge_item it m) +ℤ total_of id items
          ≡ num_at id m +ℤ total_of id (it ∷ items) =
      λ id. elim (Bool-cases (eqb_ℤ it.conf_id id)) [
        | inl same ↦
            let e = (eqb_ℤ_iff it.conf_id id).0 same in
            let e' = ap (λ (i : ℤ). num_at i m) e in rw (round id fits₁, same, e') (omega go_laws)
        | inr other ↦ rw (round id fits₁, other) refl
      ] in
    let (v', sums) =
      merge_items_num items (merge_item it m) a (merge_item-Merged it m p fits₁ v)
        (λ id. rw (step id) (fits id)) in
    (v', λ id. sums id ∙ step id)

-- `ItemMerge` turns proper items into a map in which each id stands once, under itself, with the total
-- number that the list asks of it, and an id that the list does not ask for has none. The totals
-- must be int64.
pub item_merge_totals :
    (items : List Item)
    → All Proper items
    → ((id : ℤ) → Is64 (total_of id items))
    → Merged (item_merge items) × ((id : ℤ) → num_at id (item_merge items) ≡ total_of id items)
unfolding item_merge
item_merge_totals items a fits =
    let zero_add : (n : ℤ) → pos 0 +ℤ n ≡ n = λ n. omega go_laws in
    let empty : (id : ℤ) → num_at id [] ≡ pos 0 = λ id. unfold find in refl in
    let (v, sums) =
      merge_items_num items [] a (record { keys = tt; entries = tt })
        (λ id. rw (empty id, zero_add (total_of id items)) (fits id)) in
    (v, λ id. sums id ∙ rw (empty id) (zero_add (total_of id items)))
