-- ===== src/Shop/Gold.antt =====
-- src/service/logic/module/shop/shop_module_impl.go: what a purchase costs and pays.
use heli.Common.{
  ℕ, ◌<◌, ◌^◌, ◌*◌, ℤ, pos, pos_part, neg_part, ◌+ℤ◌, ◌≤ℤ◌, ◌<ℤ◌, Is64, eqb_ℤ, eqb_ℤ_iff, go_laws,
  Bool, [], ◌∷◌, if◌then◌else◌, int_eq, ◌≡◌, ap, subst, ◌∙◌, inl, inr, arith, Bool-cases,
}
use heli.Common.Table.{find, insert}
use heli.Item.Pack.{Code, build_item, get_count}
use heli.Item.Merge.{item_merge, merge_items, merge_item, item_map_to_slice}
use heli.Item.Module.{
  ItemModule, check_enough, check_enough_map, check_enough_values, get_item_count, add_items,
  sub_items,
}
use heli.Item.Totals.{Proper, total_of}
use heli.Item.Consume.{code_cases, sub_items_refused}
use heli.Item.Gain.{add_items_counts}
use heli.Shop.{ShopModule, coin_gold}

pub one_total :
    (num id : ℤ)
    → total_of id (build_item coin_gold num ∷ []) ≡ (if eqb_ℤ coin_gold id then num else pos 0)
one_total num id = grind go_laws

-- A count with room for what a purchase adds.
abbrev pub Roomy : ℤ → Type 0
Roomy c = (pos 0 ≤ℤ c) × (c <ℤ pos (2 ^ 62))

abbrev pub gold : ℤ → ℤ → ℤ
gold id n = if eqb_ℤ coin_gold id then n else pos 0

-- A price that SubItems takes was there.
checked-enough :
    (has_conf : ℤ → Bool) (n : ℕ) (s : ItemModule)
    → 0 < n
    → check_enough has_conf (build_item coin_gold (pos n) ∷ []) s ≡ Code.success
    → pos n ≤ℤ get_count coin_gold s.pack
unfolding check_enough check_enough_map check_enough_values get_item_count item_merge merge_items
    merge_item item_map_to_slice insert find
checked-enough has_conf n s low h = elim (Bool-cases (has_conf coin_gold)) [
  | inl known ↦ ground arith
  | inr unknown ↦ ground arith
]

pub enough :
    (has_conf : ℤ → Bool) (n : ℕ) (s : ItemModule)
    → 0 < n
    → (sub_items has_conf (build_item coin_gold (pos n) ∷ []) s).1 ≡ Code.success
    → pos n ≤ℤ get_count coin_gold s.pack
enough has_conf n s low h =
    elim (code_cases (check_enough has_conf (build_item coin_gold (pos n) ∷ []) s)) [
      | inl good ↦ checked-enough has_conf n s low good
      | inr short ↦
          absurd ((sub_items_refused has_conf (build_item coin_gold (pos n)) [] s short).0 h)
    ]

-- The count of an item before a purchase, `c`, and when its price is taken, `b`.
gold_cases :
    (n : ℕ) (id b c : ℤ)
    → n < 2 ^ 31
    → Roomy c
    → (coin_gold ≡ id → pos n ≤ℤ c)
    → b +ℤ total_of id (build_item coin_gold (pos n) ∷ []) ≡ c
    → let more = total_of id (build_item coin_gold (pos (3 * n)) ∷ []) in
      Is64 more × (pos 0 ≤ℤ b) × Is64 (b +ℤ more) × (b +ℤ more ≡ c +ℤ gold id (pos n +ℤ pos n))
gold_cases n id b c high roomy had e = elim (Bool-cases (eqb_ℤ coin_gold id)) [
  | inl same ↦
      let had' = had ((eqb_ℤ_iff coin_gold id).0 same) in
      let p = ap pos_part (rw same at e) in
      let m = ap neg_part (rw same at e) in
      rw same (omega go_laws, omega go_laws, omega go_laws, omega go_laws)
  | inr other ↦
      let p = ap pos_part (rw other at e) in
      let m = ap neg_part (rw other at e) in
      rw other (omega go_laws, omega go_laws, omega go_laws, omega go_laws)
]

-- The reward of a purchase, on items from which its price has been taken.
pub given :
    (n : ℕ) (s : ShopModule) (items : ItemModule)
    → 0 < n
    → n < 2 ^ 31
    → ((id : ℤ) → Roomy (get_count id s.item.pack))
    → pos n ≤ℤ get_count coin_gold s.item.pack
    → ((id : ℤ)
        → get_count id items.pack +ℤ total_of id (build_item coin_gold (pos n) ∷ [])
          ≡ get_count id s.item.pack)
    → let (items', code, ret) = add_items (build_item coin_gold (pos (3 * n)) ∷ []) items in
      (code ≡ Code.success)
      × ((id : ℤ) → get_count id items'.pack ≡ get_count id s.item.pack +ℤ gold id (pos n +ℤ pos n))
given n s items low high roomy had counts =
    let reward = build_item coin_gold (pos (3 * n)) in
    let proper : Proper reward = record { id_pos = omega arith; num_pos = omega arith } in
    let here = λ (id : ℤ).
      gold_cases n id (get_count id items.pack) (get_count id s.item.pack) high (roomy id)
        (λ e. subst (λ (k : ℤ). pos n ≤ℤ get_count k s.item.pack) e had) (counts id) in
    let (good, more) =
      add_items_counts reward [] items (proper, tt) (λ id. (here id).0) (λ id. (here id).1)
        (λ id. (here id).2) in
    (good, λ id. more id ∙ (here id).3)
