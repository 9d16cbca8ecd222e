-- ===== src/Shop/ShopTests.antt =====
-- Runs of src/service/logic/module/shop/shop_module_impl.go for a player with ten pieces of gold.
use heli.Common.{
  ℤ, pos, eqb_ℤ, true, [], ◌∷◌, some, ◌≡◌, ◌≢◌, ◌⊎◌, refl, inl, inr, arith, Bool-cases,
  if◌then◌else◌, int_eq,
}
use heli.Common.Table.{find}
use heli.Item.Pack.{Code, build_item, get_count, GamerPack}
use heli.Shop.{ShopModule, buy_goods, refresh_shop, build_shop_info_rsp}
use heli.Shop.Gold.{Roomy}
use heli.Shop.Trade.{Bought, buy_goods_exact}

abbrev pack : GamerPack
pack = record { item_map = (pos 4, build_item (pos 4) (pos 10)) ∷ []; ops = [] }

abbrev shop : ShopModule
shop = record { shop_tabs = []; item = record { pack = pack; sent = [] }; ops = []; sent = [] }

first_tab :
    (build_shop_info_rsp (some (true, [])) (pos 9) shop).1
    ≡ record { shop_tab_id = pos 1; buy_count = [] } ∷ []
unfolding build_shop_info_rsp find
first_tab = refl

no_tab : (refresh_shop (pos 0) (pos 9) shop).1 ≡ Code.request_params
unfolding refresh_shop
no_tab = refl

pack_count : (id : ℤ) → get_count id pack ≡ (if eqb_ℤ (pos 4) id then pos 10 else pos 0)
unfolding get_count find
pack_count id = ground arith

pack-Roomy : (id : ℤ) → Roomy (get_count id pack)
pack-Roomy id = elim (Bool-cases (eqb_ℤ (pos 4) id)) [
  | inl same ↦ rw (pack_count id, same) (omega arith, omega arith)
  | inr other ↦ rw (pack_count id, other) (omega arith, omega arith)
]

buy_goods_exact_example :
    let (s', items, code) = buy_goods (λ id. true) (pos 1) (pos 3) (pos 2) (pos 9) shop in
    ((code ≡ Code.success) × Bought (pos 1) (pos 3) (pos 2) shop s')
    ⊎ ((code ≢ Code.success) × (s' ≡ shop))
buy_goods_exact_example =
    buy_goods_exact (λ id. true) (pos 1) (pos 3) (pos 2) (pos 9) shop (omega arith) pack-Roomy
