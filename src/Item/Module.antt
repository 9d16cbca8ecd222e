-- ===== src/Item/Module.antt =====
-- src/service/logic/module/item/item_module.go: the operations of other modules on a player's pack, with
-- the notifications that they send. `TbItem.Get`, of the generated configuration tables, is a parameter: whether
-- there is an item of that id.
use heli.Common.{
  ◌||◌, ℤ, pos, ltb_ℤ, leb_ℤ, Bool, true, false, List, [], ◌∷◌, ◌++◌, Option, none, some,
  if◌then◌else◌, int_eq,
}
use heli.Common.Table.{Table, insert}
use heli.Item.Pack.{
  Item, Code, done, refused, GamerPack, add_item, sub_item, sub_items as pack_sub_items, get_count,
  build_item,
}
use heli.Item.Merge.{item_merge, item_map_to_slice}

-- `sent` are the `PackInfoNTF` messages, oldest first: whether it holds all items, and the items.
pub record ItemModule : Type 0 where
  pub pack : GamerPack
  pub sent : List (Bool × Table ℤ Item)

pub record ChangeItemResult : Type 0 where
  pub ntf_items : Table ℤ Item
  pub ret_items : List Item

abbrev pub new_item_change_result : ChangeItemResult
new_item_change_result = record { ntf_items = []; ret_items = [] }

abbrev pub add_ntf : Item → ChangeItemResult → ChangeItemResult
add_ntf item r = record r { ntf_items = insert item.conf_id item r.ntf_items }

abbrev pub add_ret : List Item → ChangeItemResult → ChangeItemResult
add_ret items r = record r { ret_items = r.ret_items ++ items }

unfoldable pub sync_item_ntf : ChangeItemResult → ItemModule → ItemModule
sync_item_ntf r s = elim r.ntf_items [
  | [] ↦ s
  | _ ↦ record s { sent = s.sent ++ (false, r.ntf_items) ∷ [] }
]

unfoldable pub send_pack_info : ItemModule → ItemModule
send_pack_info s = record s { sent = s.sent ++ (true, s.pack.item_map) ∷ [] }

-- The loop of `AddItems`: the pack and either what has changed, or the items that a failure returns
-- and its code.
unfoldable pub add_each :
    List Item → ChangeItemResult → GamerPack → GamerPack × Code × ChangeItemResult
add_each [] r p = (p, Code.success, r)
add_each (item ∷ items) r p =
    if leb_ℤ item.conf_id (pos 0) || leb_ℤ item.num (pos 0)
    then (p, Code.request_params, new_item_change_result)
    else (let (p', reply) = add_item item.conf_id item.num p in
        elim reply [
          | refused code ↦ (p', code, r)
          | done change ↦ add_each items (add_ret (change ∷ []) (add_ntf change r)) p'
        ])

abbrev pub is_success : Code → Bool
is_success Code.success = true
is_success _ = false

unfoldable pub add_items : List Item → ItemModule → ItemModule × Code × List Item
unfolding add_each
add_items [] s = (s, Code.request_params, [])
add_items (it ∷ items) s =
    let (p, code, r) =
      add_each (item_map_to_slice (item_merge (it ∷ items))) new_item_change_result s.pack in
    let s' : ItemModule = record s { pack = p } in
    (if is_success code then sync_item_ntf r s' else s', code, r.ret_items)

module _ (has_conf : ℤ → Bool) where
  unfoldable pub get_item_count : Item → ItemModule → ℤ
  get_item_count item s = if has_conf item.conf_id then get_count item.conf_id s.pack else pos 0

  unfoldable pub check_enough_values : List Item → ItemModule → Code
  unfolding get_item_count
  check_enough_values [] s = Code.success
  check_enough_values (item ∷ items) s =
      let rest = check_enough_values items s in
      if ltb_ℤ (get_item_count item s) item.num then Code.item_not_enough else rest

  unfoldable pub check_enough_map : Table ℤ Item → ItemModule → Code
  unfolding check_enough_values
  check_enough_map consume s = check_enough_values (item_map_to_slice consume) s

  unfoldable pub check_enough : List Item → ItemModule → Code
  unfolding check_enough_map
  check_enough [] s = Code.success
  check_enough (it ∷ items) s = check_enough_map (item_merge (it ∷ items)) s

  -- The loop of `SubItems`, with `subPackItem`: a failure is remembered, and the loop goes on.
  unfoldable pub sub_each :
      List Item → Code → ChangeItemResult → GamerPack → GamerPack × Code × ChangeItemResult
  sub_each [] err r p = (p, err, r)
  sub_each (item ∷ items) err r p =
      let (p', reply) = sub_item item.conf_id item.num p in
      elim reply [
        | refused code ↦ sub_each items code r p'
        | done change ↦ sub_each items err (add_ret (change ∷ []) (add_ntf change r)) p'
      ]

  unfoldable pub sub_items : List Item → ItemModule → ItemModule × Code × List Item
  unfolding check_enough sub_each
  sub_items [] s = (s, Code.success, [])
  sub_items (it ∷ items) s =
      let (p, code, r) =
        sub_each (item_map_to_slice (item_merge (it ∷ items))) Code.success new_item_change_result
          s.pack in
      elim (check_enough (it ∷ items) s) [
        | Code.success ↦ (sync_item_ntf r (record s { pack = p }), code, r.ret_items)
        | code' ↦ (s, code', [])
      ]

  -- `UseItem` of a non-nil item; nil on a failure.
  unfoldable pub use_item : Item → ItemModule → ItemModule × Option (List Item)
  use_item item s =
      let (p, reply) = pack_sub_items (some item ∷ []) s.pack in
      elim reply [
        | refused code ↦ (record s { pack = p }, none)
        | done changed ↦ (
          sync_item_ntf (add_ret changed new_item_change_result) (record s { pack = p }),
          some changed,
        )
      ]

  -- The items that `DelAllItem` gathers.
  unfoldable pub items_to_delete : Table ℤ Item → List Item
  items_to_delete [] = []
  items_to_delete ((conf_id, item) ∷ item_map) =
      let rest = items_to_delete item_map in
      if leb_ℤ conf_id (pos 0) || leb_ℤ item.num (pos 0)
      then rest
      else if has_conf conf_id
      then build_item conf_id item.num ∷ rest
      else rest

  unfoldable pub del_all_item : ItemModule → ItemModule × Code
  unfolding items_to_delete sub_items
  del_all_item s = elim (items_to_delete s.pack.item_map) [
    | [] ↦ (s, Code.success)
    | it ∷ items ↦ let (s', code, ret) = sub_items (it ∷ items) s in (s', code)
  ]
