-- ===== src/Item/Counts.antt =====
-- src/service/logic/module/item/item.go: how many of each item a pack has, before and after a call.
use heli.Common.{
  ◌||◌, ℤ, pos, ◌+ℤ◌, ◌≤ℤ◌, ◌<ℤ◌, Is64, add64, sub64, add64_id, leb_ℤ, ltb_ℤ, eqb_ℤ, eqb_ℤ_iff,
  false, none, some, ◌≡◌, refl, sym, ap, ◌∙◌, inl, inr, arith, go_laws, if◌then◌else◌, int_eq,
  Bool-cases, Option-cases,
}
use heli.Common.Table.{Table, find, insert, erase, find-insert, find-erase}
use heli.Item.Pack.{
  Item, GamerPack, get_count, add_item, sub_item, take_item, Reply, done, item_or_new,
}

abbrev pub num_at : ℤ → Table ℤ Item → ℤ
num_at id m = elim (find id m) [ none ↦ pos 0 | some it ↦ it.num ]

pub num_at-insert :
    (k id : ℤ) (it : Item) (m : Table ℤ Item)
    → num_at id (insert k it m) ≡ (if eqb_ℤ k id then it.num else num_at id m)
num_at-insert k id it m = rw (num_at, find-insert k id it m) (ground arith)

num_at-erase :
    (k id : ℤ) (m : Table ℤ Item)
    → num_at id (erase k m) ≡ (if eqb_ℤ k id then pos 0 else num_at id m)
num_at-erase k id m = rw (num_at, find-erase k id m) (ground arith)

pub get_count-num_at : (id : ℤ) (p : GamerPack) → get_count id p ≡ num_at id p.item_map
unfolding get_count
get_count-num_at id p = refl

item_or_new_num : (id : ℤ) (m : Table ℤ Item) → (item_or_new id (find id m)).num ≡ num_at id m
item_or_new_num id m = ground arith

add_item_map :
    (item_id num : ℤ) (p : GamerPack)
    → pos 0 <ℤ num
    → let old = item_or_new item_id (find item_id p.item_map) in
      (add_item item_id num p).0.item_map
      ≡ insert item_id (record old { num = add64 old.num num }) p.item_map
unfolding add_item
add_item_map item_id num p h =
    let positive : leb_ℤ num (pos 0) ≡ false = ground arith in rw (positive, add_item) refl

-- Adding a positive number of an item raises its count by that number and leaves the count of every
-- other item as it was. The new count must be an int64.
pub add_item_counts :
    (item_id num : ℤ) (p : GamerPack) (id : ℤ)
    → pos 0 <ℤ num
    → Is64 (get_count item_id p +ℤ num)
    → get_count id (add_item item_id num p).0
      ≡ (if eqb_ℤ item_id id then get_count id p +ℤ num else get_count id p)
add_item_counts item_id num p id h fits =
    let old = item_or_new item_id (find item_id p.item_map) in
    let held : old.num ≡ get_count item_id p =
      item_or_new_num item_id p.item_map ∙ sym (get_count-num_at item_id p) in
    let now : add64 old.num num ≡ get_count item_id p +ℤ num =
      rw held (add64_id (get_count item_id p) num fits) in
    let stored = num_at-insert item_id id (record old { num = add64 old.num num }) p.item_map in
    let after : get_count id (add_item item_id num p).0
        ≡ num_at id (add_item item_id num p).0.item_map =
      get_count-num_at id (add_item item_id num p).0 in
    let map_eq = ap (num_at id) (add_item_map item_id num p h) in
    elim (Bool-cases (eqb_ℤ item_id id)) [
      | inl same ↦
          let e = (eqb_ℤ_iff item_id id).0 same in
          after ∙ map_eq ∙ stored ∙ rw same (now ∙ ap (λ (i : ℤ). get_count i p +ℤ num) e)
      | inr other ↦ after ∙ map_eq ∙ stored ∙ rw other (sym (get_count-num_at id p))
    ]

sub_item_take :
    (item_id num : ℤ) (p : GamerPack) (old : Item)
    → find item_id p.item_map ≡ some old
    → pos 0 <ℤ item_id
    → pos 0 <ℤ num
    → num ≤ℤ old.num
    → sub_item item_id num p
      ≡ ((take_item item_id num old p).0, done (take_item item_id num old p).1)
unfolding sub_item
sub_item_take item_id num p old found hid h enough =
    let good : (leb_ℤ num (pos 0) || leb_ℤ item_id (pos 0)) ≡ false = ground arith in
    let cover : ltb_ℤ old.num num ≡ false = ground arith in rw (good, found, cover, sub_item) refl

take_item_counts :
    (item_id num : ℤ) (old : Item) (p : GamerPack) (id : ℤ)
    → num_at id (take_item item_id num old p).0.item_map
      ≡ (if eqb_ℤ item_id id then sub64 old.num num else num_at id p.item_map)
unfolding take_item
take_item_counts item_id num old p id = elim (Bool-cases (eqb_ℤ (sub64 old.num num) (pos 0))) [
  | inl gone ↦
      let zero_left = (eqb_ℤ_iff (sub64 old.num num) (pos 0)).0 gone in
      rw (gone, take_item) (num_at-erase item_id id p.item_map ∙ rw zero_left refl)
  | inr some_left ↦
      rw (some_left, take_item)
        (num_at-insert item_id id (record old { num = sub64 old.num num }) p.item_map)
]

-- Taking a number that is there lowers the item's count by exactly that number, and no other; the
-- change that is returned says so. Numbers are positive, and counts are int64.
pub sub_item_counts :
    (item_id num : ℤ) (p : GamerPack)
    → pos 0 <ℤ item_id
    → pos 0 <ℤ num
    → num ≤ℤ get_count item_id p
    → Is64 (get_count item_id p)
    → (change : Item) × ((sub_item item_id num p).1 ≡ done change)
      × ((id : ℤ)
          → get_count id (sub_item item_id num p).0 +ℤ (if eqb_ℤ item_id id then num else pos 0)
            ≡ get_count id p)
sub_item_counts item_id num p hid h enough c64 = elim (Option-cases (find item_id p.item_map)) [
  | inl missing ↦ absurd (none_left missing)
  | inr (old, found) ↦
      let held : get_count item_id p ≡ old.num =
        get_count-num_at item_id p ∙ rw (num_at, found) refl in
      let enough' : num ≤ℤ old.num = rw held at enough in
      let old64 : Is64 old.num = rw held at c64 in
      let taken = sub_item_take item_id num p old found hid h enough' in
      (
        (take_item item_id num old p).1,
        ap (λ (x : GamerPack × Reply Item). x.1) taken,
        λ id.
            let after =
              get_count-num_at id (take_item item_id num old p).0
              ∙ take_item_counts item_id num old p id in
            rw taken (elim (Bool-cases (eqb_ℤ item_id id)) [
              | inl same ↦
                  let e = (eqb_ℤ_iff item_id id).0 same in
                  let held' : get_count id p ≡ old.num =
                    ap (λ (i : ℤ). get_count i p) (sym e) ∙ held in
                  rw (after, same, held') (omega go_laws)
              | inr other ↦ rw (after, other, get_count-num_at id p) (omega go_laws)
            ]),
      )
]
  where
    none_left : find item_id p.item_map ≡ none → ⊥
    none_left missing =
        let nothing : get_count item_id p ≡ pos 0 =
          get_count-num_at item_id p ∙ rw (num_at, missing) refl in
        let enough' : num ≤ℤ pos 0 = rw nothing at enough in omega go_laws
