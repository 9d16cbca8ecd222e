-- ===== src/Item/Gain.antt =====
-- src/service/logic/module/item/item_module.go: `AddItems` gives all that it is asked for.
use heli.Common.{
  ◌||◌, subst, ℤ, pos, ◌+ℤ◌, ◌≤ℤ◌, ◌<ℤ◌, Is64, leb_ℤ, eqb_ℤ, eqb_ℤ_iff, false, List, [], ◌∷◌, ◌≡◌,
  refl, sym, ◌∙◌, inl, inr, arith, go_laws, int_eq, Bool-cases, All,
}
use heli.Item.Pack.{Item, Code, done, GamerPack, get_count, add_item}
use heli.Item.Merge.{item_merge, item_map_to_slice}
use heli.Item.Module.{
  ItemModule, ChangeItemResult, new_item_change_result, add_ntf, add_ret, add_each, add_items,
}
use heli.Item.Counts.{add_item_counts}
use heli.Item.Totals.{Proper, total_of, total_of-nonneg, item_merge_totals}
use heli.Item.Distinct.{slice-Proper, total_of-slice}
use heli.Item.Consume.{sync-pack}

add_item_done :
    (item_id num : ℤ) (p : GamerPack)
    → pos 0 <ℤ num
    → (change : Item) × ((add_item item_id num p).1 ≡ done change)
unfolding add_item
add_item_done item_id num p h =
    let positive : leb_ℤ num (pos 0) ≡ false = ground arith in rw (positive, add_item) (_, refl)

add_each_step :
    (it : Item) (items : List Item) (r : ChangeItemResult) (p : GamerPack) (change : Item)
    → Proper it
    → (add_item it.conf_id it.num p).1 ≡ done change
    → add_each (it ∷ items) r p
      ≡ add_each items (add_ret (change ∷ []) (add_ntf change r)) (add_item it.conf_id it.num p).0
unfolding add_each
add_each_step it items r p change good replied =
    let i = good.id_pos in
    let n = good.num_pos in
    let pass : (leb_ℤ it.conf_id (pos 0) || leb_ℤ it.num (pos 0)) ≡ false = ground arith in
    rw (pass, add_each, replied) refl

abbrev Given : List Item → GamerPack → GamerPack × Code × ChangeItemResult → Type 0
Given items p (p', code, r') =
    (code ≡ Code.success) × ((id : ℤ) → get_count id p' ≡ get_count id p +ℤ total_of id items)

add_zero : (x : ℤ) → x ≡ x +ℤ pos 0
add_zero x = omega go_laws

add_assoc : (x y z : ℤ) → (x +ℤ y) +ℤ z ≡ x +ℤ (y +ℤ z)
add_assoc x y z = omega go_laws

add_each_lem :
    (items : List Item) (r : ChangeItemResult) (p : GamerPack)
    → All Proper items
    → ((id : ℤ) → pos 0 ≤ℤ get_count id p)
    → ((id : ℤ) → Is64 (get_count id p +ℤ total_of id items))
    → Given items p (add_each items r p)
unfolding add_each
add_each_lem [] r p a low fits = (refl, λ id. add_zero (get_count id p))
add_each_lem (it ∷ items) r p (good, a) low fits =
    let (change, replied) = add_item_done it.conf_id it.num p good.num_pos in
    let p₁ = (add_item it.conf_id it.num p).0 in
    let n = good.num_pos in
    let here = (eqb_ℤ_iff it.conf_id it.conf_id).1 refl in
    let all : Is64 (get_count it.conf_id p +ℤ (it.num +ℤ total_of it.conf_id items)) =
      rw here at (fits it.conf_id) in
    let l = low it.conf_id in
    let t = total_of-nonneg it.conf_id items a in
    let fits₁ : Is64 (get_count it.conf_id p +ℤ it.num) = omega go_laws in
    let counts = λ (id : ℤ). add_item_counts it.conf_id it.num p id good.num_pos fits₁ in
    let step : (id : ℤ)
        → get_count id p₁ +ℤ total_of id items ≡ get_count id p +ℤ total_of id (it ∷ items) =
      λ id. elim (Bool-cases (eqb_ℤ it.conf_id id)) [
        | inl same ↦ rw (counts id, same) (add_assoc (get_count id p) it.num (total_of id items))
        | inr other ↦ rw (counts id, other) refl
      ] in
    let low₁ : (id : ℤ) → pos 0 ≤ℤ get_count id p₁ = λ id. elim (Bool-cases (eqb_ℤ it.conf_id id)) [
      | inl same ↦ let l' = low id in rw (counts id, same) (omega go_laws)
      | inr other ↦ rw (counts id, other) (low id)
    ] in
    let ih =
      add_each_lem items (add_ret (change ∷ []) (add_ntf change r)) p₁ a low₁
        (λ id. rw (step id) (fits id)) in
    rw (add_each_step it items r p change good replied) (ih.0, λ id. ih.1 id ∙ step id)

-- `AddItems` with a list of items that is not empty, each with an id and a positive number, answers
-- success and raises the count of every item by exactly the total that the list gives of it. The
-- counts may not be negative, and the totals and the new counts must be int64.
pub add_items_counts :
    (it : Item) (items : List Item) (s : ItemModule)
    → All Proper (it ∷ items)
    → ((id : ℤ) → Is64 (total_of id (it ∷ items)))
    → ((id : ℤ) → pos 0 ≤ℤ get_count id s.pack)
    → ((id : ℤ) → Is64 (get_count id s.pack +ℤ total_of id (it ∷ items)))
    → let (s', code, ret) = add_items (it ∷ items) s in
      (code ≡ Code.success)
      × ((id : ℤ) → get_count id s'.pack ≡ get_count id s.pack +ℤ total_of id (it ∷ items))
unfolding add_items
add_items_counts it items s a t low fits =
    let (v, totals) = item_merge_totals (it ∷ items) a t in
    let m = item_merge (it ∷ items) in
    let values = item_map_to_slice m in
    let same : (id : ℤ) → total_of id values ≡ total_of id (it ∷ items) =
      λ id. total_of-slice id m v.keys v.entries ∙ totals id in
    let (good, counts) =
      add_each_lem values new_item_change_result s.pack (slice-Proper m v.entries) low
        (λ id. subst (λ (n : ℤ). Is64 (get_count id s.pack +ℤ n)) (sym (same id)) (fits id)) in
    rw (good, add_items, sync-pack)
      (
        refl,
        λ id.
            subst
              (λ (n : ℤ).
                get_count id (add_each values new_item_change_result s.pack).0
                ≡ get_count id s.pack +ℤ n)
              (same id) (counts id),
      )
