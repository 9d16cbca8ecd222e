-- ===== src/Shop.antt =====
-- src/service/logic/module/shop/shop_module_impl.go: the shop of a player. A map that is nil is an empty one;
-- the item module, which BuyGoods uses without a test, is there. `has_conf` is the parameter of Item/Module, and
-- the time that `ctx.Now` gives is an argument.
pub mod Counts
pub mod Gold
pub mod Trade
mod ShopTests
use heli.Common.{
  ◌||◌, ℤ, pos, leb_ℤ, mul64, add32, Bool, String, List, [], ◌∷◌, ◌++◌, Option, none, some,
  if◌then◌else◌, int_eq,
}
use heli.Common.Table.{Table, find, insert}
use heli.Item.Pack.{Item, Code, build_item}
use heli.Item.Module.{ItemModule, add_items, sub_items, is_success}

pub record ShopTabData : Type 0 where
  pub refresh_time : ℤ
  pub buy_count : Table ℤ ℤ

-- `pb.ShopInfo`
pub record ShopInfo : Type 0 where
  pub shop_tab_id : ℤ
  pub buy_count : Table ℤ ℤ

-- `ops` are the fields handed to `AddUpdateOp`, and `sent` the answers that SendShopInfo sends.
pub record ShopModule : Type 0 where
  pub shop_tabs : Table ℤ ShopTabData
  pub item : ItemModule
  pub ops : List String
  pub sent : List (List ShopInfo)

-- `configdoc.COIN_GOLD`
abbrev pub coin_gold : ℤ
coin_gold = pos 4

abbrev pub new_tab : ℤ → ShopTabData
new_tab now = record { refresh_time = now; buy_count = [] }

-- `ensureShopTab` for the id that it looks up.
unfoldable pub ensure_at : ℤ → ℤ → ShopModule → ShopModule × ShopTabData
ensure_at shop_id now s = elim (find shop_id s.shop_tabs) [
  | some tab ↦ (s, tab)
  | none ↦ (
    record s {
      shop_tabs = insert shop_id (new_tab now) s.shop_tabs;
      ops = s.ops ++ "shop_tabs" ∷ [];
    },
    new_tab now,
  )
]

unfoldable pub ensure_shop_tab : ℤ → ℤ → ShopModule → ShopModule × ShopTabData
unfolding ensure_at
ensure_shop_tab shop_id now s =
    if leb_ℤ shop_id (pos 0) then ensure_at (pos 1) now s else ensure_at shop_id now s

unfoldable pub build_shop_info : ℤ → ℤ → ShopModule → ShopModule × ShopInfo
unfolding ensure_shop_tab
build_shop_info shop_id now s =
    let (s', tab) = ensure_shop_tab shop_id now s in
    (s', record { shop_tab_id = shop_id; buy_count = tab.buy_count })

-- Both loops of `BuildShopInfoRsp`.
unfoldable pub build_each : List ℤ → ℤ → ShopModule → ShopModule × List ShopInfo
unfolding build_shop_info
build_each [] now s = (s, [])
build_each (shop_id ∷ shop_ids) now s =
    let (s₁, info) = build_shop_info shop_id now s in
    let (s₂, infos) = build_each shop_ids now s₁ in (s₂, info ∷ infos)

abbrev is_empty {ℓ} : {A : Type ℓ} → List A → Bool
is_empty [] = Bool.true
is_empty (x ∷ xs) = Bool.false

abbrev pub keys_of : Table ℤ ShopTabData → List ℤ
keys_of [] = []
keys_of ((tab_key, tab) ∷ tabs) = tab_key ∷ keys_of tabs

-- The branch of `BuildShopInfoRsp` for all tabs.
unfoldable pub build_all : ℤ → ShopModule → ShopModule × List ShopInfo
unfolding build_each
build_all now s =
    let (s', infos) = build_each (keys_of s.shop_tabs) now s in
    if is_empty infos then build_each (pos 1 ∷ []) now s' else (s', infos)

-- The request is nil, or says whether it asks for all tabs, and for which.
unfoldable pub build_shop_info_rsp :
    Option (Bool × List ℤ) → ℤ → ShopModule → ShopModule × List ShopInfo
unfolding build_all
build_shop_info_rsp none now s = (s, [])
build_shop_info_rsp (some (all, shop_ids)) now s =
    if all || is_empty shop_ids then build_all now s else build_each shop_ids now s

unfoldable pub send_shop_info : ℤ → ℤ → ShopModule → ShopModule
unfolding build_shop_info_rsp
send_shop_info shop_id now s =
    let (s', infos) = build_shop_info_rsp (some (Bool.false, shop_id ∷ [])) now s in
    record s' { sent = s'.sent ++ infos ∷ [] }

abbrev pub goods_count : ℤ → Table ℤ ℤ → ℤ
goods_count goods_id counts = elim (find goods_id counts) [ none ↦ pos 0 | some count ↦ count ]

abbrev pub count_at : ℤ → Option ShopTabData → ℤ
count_at goods_id none = pos 0
count_at goods_id (some tab) = goods_count goods_id tab.buy_count

unfoldable pub get_buy_count : ℤ → ℤ → ShopModule → ℤ
get_buy_count shop_id goods_id s = count_at goods_id (find shop_id s.shop_tabs)

-- The end of `BuyGoods`: what it does to the tab that it gets, and all of it from `ensureShopTab` on.
unfoldable pub add_count : ℤ → ℤ → ℤ → ShopTabData → ShopModule → ShopModule
add_count shop_id goods_id num tab s =
    let counts = insert goods_id (add32 (goods_count goods_id tab.buy_count) num) tab.buy_count in
    record s {
      shop_tabs = insert shop_id (record tab { buy_count = counts }) s.shop_tabs;
      ops = s.ops ++ "shop_tabs" ∷ [];
    }

unfoldable pub count_goods : ℤ → ℤ → ℤ → ℤ → ShopModule → ShopModule
unfolding ensure_shop_tab add_count
count_goods shop_id goods_id num now s =
    let (s', tab) = ensure_shop_tab shop_id now s in add_count shop_id goods_id num tab s'

unfoldable pub refresh_shop : ℤ → ℤ → ShopModule → ShopModule × Code
unfolding ensure_shop_tab
refresh_shop shop_id now s =
    if leb_ℤ shop_id (pos 0)
    then (s, Code.request_params)
    else (let (s', tab) = ensure_shop_tab shop_id now s in
        (
          record s' {
            shop_tabs = insert shop_id (record tab { refresh_time = now }) s'.shop_tabs;
            ops = s'.ops ++ "shop_tabs" ∷ [];
          },
          Code.success,
        ))

-- `BuyGoods` behind the answer of AddItems, and behind the answer of SubItems.
unfoldable pub receive :
    ℤ → ℤ → ℤ → ℤ → ShopModule → ItemModule × Code × List Item → ShopModule × List Item × Code
unfolding count_goods
receive shop_id goods_id num now s (item, code, items) =
    let s' : ShopModule = record s { item = item } in
    if is_success code
    then (count_goods shop_id goods_id num now s', items, Code.success)
    else (s', [], code)

unfoldable pub pay :
    ℤ → ℤ → ℤ → ℤ → ShopModule → ItemModule × Code × List Item → ShopModule × List Item × Code
unfolding receive add_items
pay shop_id goods_id num now s (item, code, taken) =
    if is_success code
    then receive shop_id goods_id num now s
        (add_items (build_item coin_gold (mul64 (pos 3) num) ∷ []) item)
    else (record s { item = item }, [], code)

module _ (has_conf : ℤ → Bool) where
  unfoldable pub buy_goods : ℤ → ℤ → ℤ → ℤ → ShopModule → ShopModule × List Item × Code
  unfolding pay sub_items
  buy_goods shop_id goods_id num now s =
      if leb_ℤ shop_id (pos 0) || leb_ℤ goods_id (pos 0) || leb_ℤ num (pos 0)
      then (s, [], Code.request_params)
      else pay shop_id goods_id num now s
          (sub_items has_conf (build_item coin_gold (mul64 (pos 1) num) ∷ []) s.item)
