-- ===== src/Item/Consume.antt =====
-- src/service/logic/module/item/item_module.go: `SubItems` takes all that it is asked for, or nothing.
use heli.Common.{
  subst, ℤ, ◌+ℤ◌, ◌≤ℤ◌, Is64, eqb_ℤ, eqb_ℤ_iff, Bool, List, [], ◌∷◌, ◌≡◌, ◌≢◌, ◌⊎◌, refl, ap, ◌∙◌,
  inl, inr, arith, go_laws, int_eq, Bool-cases, All,
}
use heli.Item.Pack.{Item, Code, GamerPack, get_count, sub_item}
use heli.Item.Merge.{item_merge, item_map_to_slice}
use heli.Item.Module.{
  ItemModule, ChangeItemResult, new_item_change_result, add_ntf, add_ret, sync_item_ntf,
  get_item_count, check_enough_values, check_enough_map, check_enough, sub_each, sub_items,
}
use heli.Item.Counts.{sub_item_counts}
use heli.Item.Totals.{Proper, total_of, item_merge_totals}
use heli.Item.Distinct.{
  Distinct, slice-Distinct, total_of-slice, sum_parts, if_true, if_false, eqb_ne, slice-Proper,
}

-- The pack has what the item asks for.
pub record Covered (p : GamerPack) (it : Item) : Type 0 where
  pub proper : Proper it
  pub enough : it.num ≤ℤ get_count it.conf_id p

pub sync-pack : (r : ChangeItemResult) (s : ItemModule) → (sync_item_ntf r s).pack ≡ s.pack
unfolding sync_item_ntf
sync-pack r s = ground arith

pub code_cases : (code : Code) → (code ≡ Code.success) ⊎ (code ≢ Code.success)
code_cases Code.success = inl refl
code_cases Code.request_params = inr (λ e. ground arith)
code_cases Code.item_not_enough = inr (λ e. ground arith)
code_cases Code.failed = inr (λ e. ground arith)

module _ (has_conf : ℤ → Bool) where
  values-Covered :
      (items : List Item) (s : ItemModule)
      → All Proper items
      → check_enough_values has_conf items s ≡ Code.success
      → All (Covered s.pack) items
  unfolding check_enough_values get_item_count
  values-Covered [] s a h = tt
  values-Covered (it ∷ items) s (p, a) h = elim (Bool-cases (has_conf it.conf_id)) [
    | inl known ↦
        (record { proper = p; enough = ground arith }, values-Covered items s a (ground arith))
    | inr unknown ↦ let n = p.num_pos in absurd (ground arith)
  ]

  -- The loop of `SubItems` on items that the pack covers.
  abbrev Taken : List Item → Code → GamerPack → GamerPack × Code × ChangeItemResult → Type 0
  Taken items err p (p', code, r') =
      (code ≡ err) × ((id : ℤ) → get_count id p' +ℤ total_of id items ≡ get_count id p)

  Covered-mono :
      (p p' : GamerPack) (items : List Item) (k : ℤ)
      → ((id : ℤ) → k ≢ id → get_count id p' ≡ get_count id p)
      → All (λ (other : Item). k ≢ other.conf_id) items
      → All (Covered p) items
      → All (Covered p') items
  Covered-mono p p' [] k same f a = tt
  Covered-mono p p' (it ∷ items) k same (n, f) (c, a) =
      let e = same it.conf_id n in
      let h = c.enough in
      (record { proper = c.proper; enough = rw e h }, Covered-mono p p' items k same f a)

  sub_each_lem :
      (items : List Item) (err : Code) (r : ChangeItemResult) (p : GamerPack)
      → Distinct items
      → All (Covered p) items
      → ((id : ℤ) → Is64 (get_count id p))
      → Taken items err p (sub_each has_conf items err r p)
  unfolding sub_each
  sub_each_lem [] err r p d a b = (refl, λ id. omega go_laws)
  sub_each_lem (it ∷ items) err r p (f, d) (c, a) b =
      let (change, replied, counts) =
        sub_item_counts it.conf_id it.num p c.proper.id_pos c.proper.num_pos c.enough
          (b it.conf_id) in
      let p₁ = (sub_item it.conf_id it.num p).0 in
      let apart : (id : ℤ) → it.conf_id ≢ id → get_count id p₁ ≡ get_count id p = λ id n.
        if_false (eqb_ℤ it.conf_id id) (get_count id p₁) it.num (get_count id p)
          (eqb_ne it.conf_id id n) (counts id) in
      let b₁ : (id : ℤ) → Is64 (get_count id p₁) = λ id. elim (Bool-cases (eqb_ℤ it.conf_id id)) [
        | inl same ↦
            let e = (eqb_ℤ_iff it.conf_id id).0 same in
            let c₁ = sum_parts (get_count id p₁) it.num (get_count id p) (
              if_true (eqb_ℤ it.conf_id id) (get_count id p₁) it.num (get_count id p) same
                (counts id)) in
            let n = c.proper.num_pos in
            let enough = c.enough in
            let e' = ap (λ (i : ℤ). get_count i p) e in
            let enough' : it.num ≤ℤ get_count id p = rw e' at enough in
            let bound = b id in omega go_laws
        | inr other ↦
            let c₁ =
              if_false (eqb_ℤ it.conf_id id) (get_count id p₁) it.num (get_count id p) other
                (counts id) in
            rw c₁ (b id)
      ] in
      let p' = (sub_each has_conf items err (add_ret (change ∷ []) (add_ntf change r)) p₁).0 in
      let ih =
        sub_each_lem items err (add_ret (change ∷ []) (add_ntf change r)) p₁ d
          (Covered-mono p p₁ items it.conf_id apart f a) b₁ in
      rw (replied, sub_each)
        (
          ih.0,
          λ id. elim (Bool-cases (eqb_ℤ it.conf_id id)) [
            | inl same ↦
                let c₁ = sum_parts (get_count id p₁) it.num (get_count id p) (
                  if_true (eqb_ℤ it.conf_id id) (get_count id p₁) it.num (get_count id p) same
                    (counts id)) in
                let rest =
                  sum_parts (get_count id p') (total_of id items) (get_count id p₁) (ih.1 id) in
                rw (total_of, same) (omega go_laws)
            | inr other ↦
                let c₁ =
                  if_false (eqb_ℤ it.conf_id id) (get_count id p₁) it.num (get_count id p) other
                    (counts id) in
                let rest = ih.1 id in rw (total_of, other) (rest ∙ c₁)
          ],
        )

  check_enough_merge :
      (items : List Item) (s : ItemModule)
      → check_enough has_conf items s ≡ Code.success
      → items ≢ []
      → check_enough_values has_conf (item_map_to_slice (item_merge items)) s ≡ Code.success
  unfolding check_enough check_enough_map
  check_enough_merge [] s h n = absurd (n refl)
  check_enough_merge (it ∷ items) s h n = h

  pub sub_items_refused :
      (it : Item) (items : List Item) (s : ItemModule)
      → check_enough has_conf (it ∷ items) s ≢ Code.success
      → let (s', code, ret) = sub_items has_conf (it ∷ items) s in (code ≢ Code.success) × (s' ≡ s)
  unfolding sub_items
  sub_items_refused it items s short =
      elim (check_enough has_conf (it ∷ items) s)
          as (λ c.
            check_enough has_conf (it ∷ items) s ≡ c
            → c ≢ Code.success
            → let (s', code, ret) = sub_items has_conf (it ∷ items) s in
              (code ≢ Code.success) × (s' ≡ s)) [
                | Code.success ↦ λ e n. absurd (n refl)
                | Code.request_params ↦ λ e n. rw (e, sub_items) (n, refl)
                | Code.item_not_enough ↦ λ e n. rw (e, sub_items) (n, refl)
                | Code.failed ↦ λ e n. rw (e, sub_items) (n, refl)
              ]
        refl short

  -- All that is asked for is taken, or nothing happens. Whatever the list repeats, if `SubItems` answers
  -- success then the count of every item has gone down by exactly the total that the list asks of it;
  -- otherwise the module is as it was and nothing is sent. Each item of the list must have an id and
  -- a positive number, and the totals and the counts must be int64.
  pub sub_items_exact :
      (items : List Item) (s : ItemModule)
      → All Proper items
      → ((id : ℤ) → Is64 (total_of id items))
      → ((id : ℤ) → Is64 (get_count id s.pack))
      → let (s', code, ret) = sub_items has_conf items s in
        ((code ≡ Code.success)
          × ((id : ℤ) → get_count id s'.pack +ℤ total_of id items ≡ get_count id s.pack))
        ⊎ ((code ≢ Code.success) × (s' ≡ s))
  unfolding sub_items
  sub_items_exact [] s a t b = inl (refl, λ id. omega go_laws)
  sub_items_exact (it ∷ items) s a t b = elim (code_cases (check_enough has_conf (it ∷ items) s)) [
    | inl enough ↦
        let (v, totals) = item_merge_totals (it ∷ items) a t in
        let m = item_merge (it ∷ items) in
        let values = item_map_to_slice m in
        let covered =
          values-Covered values s (slice-Proper m v.entries)
            (check_enough_merge (it ∷ items) s enough (λ e. ground arith)) in
        let (good, counts) =
          sub_each_lem values Code.success new_item_change_result s.pack
            (slice-Distinct m v.keys v.entries) covered b in
        rw (enough, sub_items, sync-pack)
          (inl (
            good,
            λ id.
                let same = total_of-slice id m v.keys v.entries ∙ totals id in
                subst
                  (λ (n : ℤ).
                    get_count id
                        (sub_each has_conf values Code.success new_item_change_result s.pack).0
                      +ℤ n
                    ≡ get_count id s.pack)
                  same (counts id),
          ))
    | inr short ↦ inr (sub_items_refused it items s short)
  ]
