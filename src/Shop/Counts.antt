-- ===== src/Shop/Counts.antt =====
-- src/service/logic/module/shop/shop_module_impl.go: the counts of what was bought.
use heli.Common.{
  ℤ, pos, leb_ℤ, eqb_ℤ, eqb_ℤ_iff, add32, ◌&&◌, false, if◌then◌else◌, int_eq, ◌≡◌, refl, ap, ◌∙◌,
  inl, inr, arith, Bool-cases,
}
use heli.Common.Table.{Table, find, insert, find-insert}
use heli.Shop.{
  ShopTabData, ShopModule, ensure_shop_tab, ensure_at, get_buy_count, goods_count, count_at,
  count_goods, add_count, new_tab,
}

-- The tab that is there or new has the counts of before, and no other tab is touched.
ensure_at-count :
    (shop_id now : ℤ) (s : ShopModule) (goods : ℤ)
    → goods_count goods ((ensure_at shop_id now s).1).buy_count ≡ get_buy_count shop_id goods s
unfolding ensure_at get_buy_count find
ensure_at-count shop_id now s goods = ground arith

ensure_at-others :
    (shop_id now : ℤ) (s : ShopModule) (shop : ℤ)
    → eqb_ℤ shop_id shop ≡ false
    → find shop ((ensure_at shop_id now s).0).shop_tabs ≡ find shop s.shop_tabs
unfolding ensure_at
ensure_at-others shop_id now s shop other =
    ground (arith, find-insert shop_id shop (new_tab now) s.shop_tabs)

ensure-at :
    (shop_id now : ℤ) (s : ShopModule)
    → leb_ℤ shop_id (pos 0) ≡ false
    → ensure_shop_tab shop_id now s ≡ ensure_at shop_id now s
unfolding ensure_shop_tab
ensure-at shop_id now s h = rw h refl

-- A count after a purchase of `num`, where it was `n`.
abbrev pub bought : ℤ → ℤ → ℤ → ℤ → ℤ → ℤ → ℤ
bought shop_id goods_id num shop goods n =
    if eqb_ℤ shop_id shop && eqb_ℤ goods_id goods then add32 n num else n

goods_count-insert :
    (goods_id n goods : ℤ) (counts : Table ℤ ℤ)
    → goods_count goods (insert goods_id n counts)
      ≡ (if eqb_ℤ goods_id goods then n else goods_count goods counts)
goods_count-insert goods_id n goods counts = ground (arith, find-insert goods_id goods n counts)

add_count-counts :
    (shop_id goods_id num : ℤ) (tab : ShopTabData) (s : ShopModule) (shop goods : ℤ)
    → get_buy_count shop goods (add_count shop_id goods_id num tab s) ≡ (
        if eqb_ℤ shop_id shop
        then (if eqb_ℤ goods_id goods
            then add32 (goods_count goods_id tab.buy_count) num
            else goods_count goods tab.buy_count)
        else get_buy_count shop goods s)
unfolding add_count get_buy_count
add_count-counts shop_id goods_id num tab s shop goods =
    let n = add32 (goods_count goods_id tab.buy_count) num in
    let placed =
      find-insert shop_id shop (record tab { buy_count = insert goods_id n tab.buy_count })
        s.shop_tabs in
    elim (Bool-cases (eqb_ℤ shop_id shop)) [
      | inr other ↦ rw (placed, other) refl
      | inl same ↦ rw (placed, same) (goods_count-insert goods_id n goods tab.buy_count)
    ]

pub count_goods-counts :
    (shop_id goods_id num now : ℤ) (s : ShopModule) (shop goods : ℤ)
    → leb_ℤ shop_id (pos 0) ≡ false
    → get_buy_count shop goods (count_goods shop_id goods_id num now s)
      ≡ bought shop_id goods_id num shop goods (get_buy_count shop goods s)
unfolding count_goods
count_goods-counts shop_id goods_id num now s shop goods h =
    let (s', tab) = ensure_at shop_id now s in
    let placed =
      ap
        (λ (r : ShopModule × ShopTabData).
          get_buy_count shop goods (add_count shop_id goods_id num r.1 r.0))
        (ensure-at shop_id now s h)
      ∙ add_count-counts shop_id goods_id num tab s' shop goods in
    placed ∙ elim (Bool-cases (eqb_ℤ shop_id shop)) [
      | inr other ↦
          let same_tab = ensure_at-others shop_id now s shop other in
          rw (other) (unfold get_buy_count in (ap (count_at goods) same_tab))
      | inl same ↦
          let here = (eqb_ℤ_iff shop_id shop).0 same in
          let before = λ (g : ℤ). ensure_at-count shop_id now s g in
          let moved = λ (g : ℤ). before g ∙ ap (λ (k : ℤ). get_buy_count k g s) here in
          elim (Bool-cases (eqb_ℤ goods_id goods)) [
            | inr other ↦ rw (same, other) (moved goods)
            | inl equal ↦
                let e = (eqb_ℤ_iff goods_id goods).0 equal in
                rw (same, equal)
                  (ap (λ (n : ℤ). add32 n num)
                    (moved goods_id ∙ ap (λ (g : ℤ). get_buy_count shop g s) e))
          ]
    ]

pub count_goods-item :
    (shop_id goods_id num now : ℤ) (s : ShopModule)
    → (count_goods shop_id goods_id num now s).item ≡ s.item
unfolding count_goods ensure_shop_tab
count_goods-item shop_id goods_id num now s = ground arith
