-- ===== src/Shop/Trade.antt =====
-- src/service/logic/module/shop/shop_module_impl.go: what a purchase changes.
use heli.Common.{
  ℕ, ◌<◌, ◌^◌, ◌*◌, ℤ, pos, negsuc, ◌+ℤ◌, ◌<ℤ◌, Is64, leb_ℤ, mul64, mul64_pos, ◌||◌, Bool, true,
  false, List, [], ◌∷◌, int_eq, ◌≡◌, ◌≢◌, ◌⊎◌, refl, ap, ◌∙◌, inl, inr, arith, Bool-cases,
}
use heli.Item.Pack.{Item, Code, build_item, get_count}
use heli.Item.Module.{ItemModule, add_items, sub_items}
use heli.Item.Totals.{Proper, total_of}
use heli.Item.Consume.{sub_items_exact}
use heli.Shop.Gold.{one_total, Roomy, gold, enough, given}
use heli.Shop.Counts.{bought, count_goods-counts, count_goods-item}
use heli.Shop.{ShopModule, coin_gold, get_buy_count, count_goods, receive, pay, buy_goods}

abbrev pub Bought : ℤ → ℤ → ℤ → ShopModule → ShopModule → Type 0
Bought shop_id goods_id num s s' =
    ((id : ℤ) → get_count id s'.item.pack ≡ get_count id s.item.pack +ℤ gold id (num +ℤ num))
    × ((shop goods : ℤ)
        → get_buy_count shop goods s'
          ≡ bought shop_id goods_id num shop goods (get_buy_count shop goods s))

module _ (shop_id goods_id num now : ℤ) (s : ShopModule) where
  receive-success :
      (r : ItemModule × Code × List Item)
      → r.1 ≡ Code.success
      → receive shop_id goods_id num now s r
        ≡ (count_goods shop_id goods_id num now (record s { item = r.0 }), r.2, Code.success)
  unfolding receive
  receive-success (item, code, items) h = rw h refl

  pay-success :
      (r : ItemModule × Code × List Item)
      → r.1 ≡ Code.success
      → pay shop_id goods_id num now s r
        ≡ receive shop_id goods_id num now s
            (add_items (build_item coin_gold (mul64 (pos 3) num) ∷ []) r.0)
  unfolding pay
  pay-success (item, code, taken) h = rw h refl

  pay-refused :
      (r : ItemModule × Code × List Item)
      → r.1 ≢ Code.success
      → pay shop_id goods_id num now s r ≡ (record s { item = r.0 }, [], r.1)
  unfolding pay
  pay-refused (item, Code.success, taken) h = absurd (h refl)
  pay-refused (item, Code.request_params, taken) h = refl
  pay-refused (item, Code.item_not_enough, taken) h = refl
  pay-refused (item, Code.failed, taken) h = refl

module _ (has_conf : ℤ → Bool) where
  buy_goods-pay :
      (shop_id goods_id num now : ℤ) (s : ShopModule)
      → leb_ℤ shop_id (pos 0) ≡ false
      → leb_ℤ goods_id (pos 0) ≡ false
      → leb_ℤ num (pos 0) ≡ false
      → buy_goods has_conf shop_id goods_id num now s
        ≡ pay shop_id goods_id num now s
            (sub_items has_conf (build_item coin_gold (mul64 (pos 1) num) ∷ []) s.item)
  unfolding buy_goods
  buy_goods-pay shop_id goods_id num now s a b c = rw (a, b, c) refl

  -- The part of BuyGoods behind the test of its arguments.
  paid_and_counted :
      (shop_id goods_id now : ℤ) (n : ℕ) (s : ShopModule)
      → leb_ℤ shop_id (pos 0) ≡ false
      → leb_ℤ goods_id (pos 0) ≡ false
      → 0 < n
      → n < 2 ^ 31
      → ((id : ℤ) → Roomy (get_count id s.item.pack))
      → let (s', items, code) = buy_goods has_conf shop_id goods_id (pos n) now s in
        ((code ≡ Code.success) × Bought shop_id goods_id (pos n) s s')
        ⊎ ((code ≢ Code.success) × (s' ≡ s))
  paid_and_counted shop_id goods_id now n s shop_pos goods_pos low high roomy =
      let cost = build_item coin_gold (pos n) in
      let price : mul64 (pos 1) (pos n) ≡ pos n =
        mul64_pos 1 n (omega arith) ∙ ap pos (omega arith) in
      let gain : mul64 (pos 3) (pos n) ≡ pos (3 * n) = mul64_pos 3 n (omega arith) in
      let proper : Proper cost = record { id_pos = omega arith; num_pos = omega arith } in
      let totals : (id : ℤ) → Is64 (total_of id (cost ∷ [])) =
        λ id. rw (one_total (pos n) id) (grind arith) in
      let fits : (id : ℤ) → Is64 (get_count id s.item.pack) =
        λ id. let r = roomy id in (omega arith, omega arith) in
      let r = sub_items has_conf (cost ∷ []) s.item in
      let paying : buy_goods has_conf shop_id goods_id (pos n) now s
          ≡ pay shop_id goods_id (pos n) now s r =
        buy_goods-pay shop_id goods_id (pos n) now s shop_pos goods_pos (ground arith)
        ∙ ap
            (λ (c : ℤ).
              pay shop_id goods_id (pos n) now s
                (sub_items has_conf (build_item coin_gold c ∷ []) s.item))
            price in
      elim (sub_items_exact has_conf (cost ∷ []) s.item (proper, tt) totals fits) [
        | inr (refused, same) ↦
            let e = paying ∙ pay-refused shop_id goods_id (pos n) now s r refused in
            rw e (inr (refused, ap (λ (i : ItemModule). record s { item = i }) same))
        | inl (success, counts) ↦
            let reward = build_item coin_gold (pos (3 * n)) in
            let a = add_items (reward ∷ []) r.0 in
            let (good, more) =
              given n s r.0 low high roomy (enough has_conf n s.item low success) counts in
            let e =
              paying
              ∙ pay-success shop_id goods_id (pos n) now s r success
              ∙ ap
                  (λ (c : ℤ).
                    receive shop_id goods_id (pos n) now s
                      (add_items (build_item coin_gold c ∷ []) r.0))
                  gain
              ∙ receive-success shop_id goods_id (pos n) now s a good in
            let s₂ : ShopModule = record s { item = a.0 } in
            rw e (
              inl (
                refl,
                (
                  λ id.
                      ap (λ (i : ItemModule). get_count id i.pack)
                        (count_goods-item shop_id goods_id (pos n) now s₂)
                      ∙ more id,
                  λ shop goods.
                      unfold get_buy_count in
                      (count_goods-counts shop_id goods_id (pos n) now s₂ shop goods shop_pos),
                ),
              ))
      ]

  wrong_arguments :
      (shop_id goods_id num now : ℤ) (s : ShopModule)
      → (leb_ℤ shop_id (pos 0) || leb_ℤ goods_id (pos 0) || leb_ℤ num (pos 0)) ≡ true
      → let (s', items, code) = buy_goods has_conf shop_id goods_id num now s in
        (code ≢ Code.success) × (s' ≡ s)
  unfolding buy_goods
  wrong_arguments shop_id goods_id num now s bad = rw bad (λ e. ground arith, refl)

  positive_number :
      (shop_id goods_id num now : ℤ) (s : ShopModule)
      → leb_ℤ shop_id (pos 0) ≡ false
      → leb_ℤ goods_id (pos 0) ≡ false
      → leb_ℤ num (pos 0) ≡ false
      → num <ℤ pos (2 ^ 31)
      → ((id : ℤ) → Roomy (get_count id s.item.pack))
      → let (s', items, code) = buy_goods has_conf shop_id goods_id num now s in
        ((code ≡ Code.success) × Bought shop_id goods_id num s s')
        ⊎ ((code ≢ Code.success) × (s' ≡ s))
  positive_number shop_id goods_id (pos n) now s a b c high roomy =
      paid_and_counted shop_id goods_id now n s a b (ground arith) (omega arith) roomy
  positive_number shop_id goods_id (negsuc n) now s a b c high roomy = absurd (ground arith)

  -- A purchase happens as a whole or not at all, for counts of items from 0 to 2 ^ 62 and a number that is an
  -- int32: with success the gold has gone up by twice the number, which is its reward of three less its price
  -- of one for each piece, and no other item's count has changed; the count of these goods in this
  -- tab has gone up by the number, as an int32, and no other. With any other code the module is as it was.
  pub buy_goods_exact :
      (shop_id goods_id num now : ℤ) (s : ShopModule)
      → num <ℤ pos (2 ^ 31)
      → ((id : ℤ) → Roomy (get_count id s.item.pack))
      → let (s', items, code) = buy_goods has_conf shop_id goods_id num now s in
        ((code ≡ Code.success) × Bought shop_id goods_id num s s')
        ⊎ ((code ≢ Code.success) × (s' ≡ s))
  buy_goods_exact shop_id goods_id num now s high roomy =
      elim (Bool-cases (leb_ℤ shop_id (pos 0) || leb_ℤ goods_id (pos 0) || leb_ℤ num (pos 0))) [
        | inl bad ↦ inr (wrong_arguments shop_id goods_id num now s bad)
        | inr fine ↦
            positive_number shop_id goods_id num now s (ground arith) (ground arith) (ground arith)
              high roomy
      ]
