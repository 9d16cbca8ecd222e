-- ===== src/Item/Merge.antt =====
-- src/configdoc/config_func.go: items merged by their configuration id. `ItemMerge` dereferences each item,
-- so an item here is never nil.
use heli.Common.{ℤ, pos, leb_ℤ, add64, List, [], ◌∷◌, none, some, if◌then◌else◌, int_eq}
use heli.Common.Table.{Table, find, insert}
use heli.Item.Pack.{Item, build_item}

-- `i.Num += num`
abbrev pub more : Item → ℤ → Item
more item num = record item { num = add64 item.num num }

-- One round of the loop of `ItemMerge`.
unfoldable pub merge_item : Item → Table ℤ Item → Table ℤ Item
merge_item item item_map = elim (find item.conf_id item_map) [
  | some i ↦ insert item.conf_id (more i item.num) item_map
  | none ↦ insert item.conf_id (build_item item.conf_id item.num) item_map
]

unfoldable pub merge_items : List Item → Table ℤ Item → Table ℤ Item
merge_items [] item_map = item_map
merge_items (item ∷ items) item_map = merge_items items (merge_item item item_map)

unfoldable pub item_merge : List Item → Table ℤ Item
item_merge items = merge_items items []

unfoldable pub merge_item_to_map : Table ℤ Item → ℤ → ℤ → Table ℤ Item
merge_item_to_map item_map conf_id num =
    if leb_ℤ num (pos 0) then item_map else elim (find conf_id item_map) [
      | some item ↦ insert conf_id (more item num) item_map
      | none ↦ insert conf_id (build_item conf_id num) item_map
    ]

-- The values of a map in the order of its `range`.
unfoldable pub item_map_to_slice : Table ℤ Item → List Item
item_map_to_slice [] = []
item_map_to_slice ((id, item) ∷ item_map) = item ∷ item_map_to_slice item_map
