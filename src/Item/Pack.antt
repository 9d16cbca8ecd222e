-- ===== src/Item/Pack.antt =====
-- src/service/logic/module/item/item.go: the pack of a player. A pack is the map `ItemMap` and the
-- calls that it made to its persister, in order. A pointer that may be nil is an Option.
use heli.Common.{
  ◌||◌, ◌&&◌, not, ℤ, pos, ltb_ℤ, leb_ℤ, eqb_ℤ, add64, sub64, Bool, false, String, List, [], ◌∷◌,
  ◌++◌, Option, none, some, if◌then◌else◌, int_eq, ◌≡◌, ◌⊎◌, refl, inl, inr,
}
use Prim.Native.String.{◌++◌ as ◌+++◌}
use heli.Common.Decimal.{show_int}
use heli.Common.Table.{Table, find, insert, erase}

-- The fields of the generated message `pb.Item`.
pub record Item : Type 0 where
  pub inst_id : ℤ
  pub conf_id : ℤ
  pub type : ℤ
  pub num : ℤ
  pub expires : ℤ
  pub ctime : ℤ
  pub change : ℤ

pub data Code : Type 0 where
  success request_params item_not_enough failed : Code

-- A value with ERROR_SUCCESS, or nil with another code.
pub data Reply {ℓ} (A : Type ℓ) : Type ℓ where
  done : A → Reply A
  refused : Code → Reply A

pub Reply-cases {ℓ} :
    {A : Type ℓ} (x : Reply A) → ((code : Code) × (x ≡ refused code)) ⊎ ((a : A) × (x ≡ done a))
Reply-cases (done a) = inr (a, refl)
Reply-cases (refused code) = inl (code, refl)

pub data StoreOp : Type 0 where
  update_op : String → Item → StoreOp
  unset_op : String → StoreOp

pub record GamerPack : Type 0 where
  pub item_map : Table ℤ Item
  pub ops : List StoreOp

-- `configdoc.BuildItem`
abbrev pub build_item : ℤ → ℤ → Item
build_item conf_id num = record {
  inst_id = pos 0;
  conf_id = conf_id;
  type = pos 0;
  num = num;
  expires = pos 0;
  ctime = pos 0;
  change = pos 0;
}

-- `ITEM_TYPE_TYPE_CURRENCY`, a number of the generated code.
abbrev pub type_currency : ℤ
type_currency = pos 1

unfoldable pub item_store_key : ℤ → ℤ → String
item_store_key item_id item_type =
    if eqb_ℤ item_type type_currency then "cu." +++ show_int item_id else "it." +++ show_int item_id

unfoldable pub get_count : ℤ → GamerPack → ℤ
get_count item_id p = elim (find item_id p.item_map) [ none ↦ pos 0 | some item ↦ item.num ]

abbrev pub store : StoreOp → GamerPack → GamerPack
store op p = record p { ops = p.ops ++ op ∷ [] }

-- `item`, or a new one with none of it.
abbrev pub item_or_new : ℤ → Option Item → Item
item_or_new item_id none = build_item item_id (pos 0)
item_or_new item_id (some item) = item

unfoldable pub add_item : ℤ → ℤ → GamerPack → GamerPack × Reply Item
unfolding item_store_key
add_item item_id num p =
    let old = item_or_new item_id (find item_id p.item_map) in
    let item : Item = record old { num = add64 old.num num } in
    if leb_ℤ num (pos 0) then (p, refused Code.request_params) else (
      store (update_op (item_store_key item_id item.type) item)
          (record p { item_map = insert item_id item p.item_map }),
      done (record item { change = sub64 item.num old.num }),
    )

unfoldable pub valid_item : Option Item → Bool
valid_item none = false
valid_item (some it) = ltb_ℤ (pos 0) it.conf_id && ltb_ℤ (pos 0) it.num

unfoldable pub get_item_count : Option Item → GamerPack → ℤ
unfolding get_count
get_item_count none p = pos 0
get_item_count (some it) p = if leb_ℤ it.conf_id (pos 0) then pos 0 else get_count it.conf_id p

abbrev pub num_of : Option Item → ℤ
num_of none = pos 0
num_of (some it) = it.num

unfoldable pub check_enough : List (Option Item) → GamerPack → Code
unfolding valid_item get_item_count
check_enough [] p = Code.success
check_enough (it ∷ items) p =
    let rest = check_enough items p in
    if not (valid_item it)
    then Code.request_params
    else if ltb_ℤ (get_item_count it p) (num_of it)
    then Code.item_not_enough
    else rest

-- The entry of `CheckEnoughMap`: a clone of the item under its key, if it has an id.
abbrev pub keyed_item : ℤ → Option Item → Option Item
keyed_item conf_id none = none
keyed_item conf_id (some it) =
    some (if ltb_ℤ (pos 0) it.conf_id then record it { conf_id = conf_id } else it)

unfoldable pub check_enough_map : Table ℤ (Option Item) → GamerPack → Code
unfolding valid_item get_item_count
check_enough_map [] p = Code.success
check_enough_map ((conf_id, it) ∷ consume) p =
    let rest = check_enough_map consume p in
    let keyed = keyed_item conf_id it in
    if not (valid_item keyed)
    then Code.request_params
    else if ltb_ℤ (get_item_count keyed p) (num_of keyed)
    then Code.item_not_enough
    else rest

-- From `item.Num -= num` on.
unfoldable pub take_item : ℤ → ℤ → Item → GamerPack → GamerPack × Item
unfolding item_store_key
take_item item_id num old p =
    let item : Item = record old { num = sub64 old.num num } in
    let key = item_store_key item_id item.type in
    let p' : GamerPack =
      if eqb_ℤ item.num (pos 0)
      then store (unset_op key) (record p { item_map = erase item_id p.item_map })
      else store (update_op key item) (record p { item_map = insert item_id item p.item_map }) in
    (p', record item { change = sub64 item.num old.num })

unfoldable pub sub_item : ℤ → ℤ → GamerPack → GamerPack × Reply Item
unfolding take_item
sub_item item_id num p =
    if leb_ℤ num (pos 0) || leb_ℤ item_id (pos 0)
    then (p, refused Code.request_params)
    else elim (find item_id p.item_map) [
      | none ↦ (p, refused Code.item_not_enough)
      | some old ↦
          let (p', change) = take_item item_id num old p in
          if ltb_ℤ old.num num then (p, refused Code.item_not_enough) else (p', done change)
    ]

-- What an item asks `SubItem` for; a nil item fails the test before.
abbrev pub sub_option : Option Item → GamerPack → GamerPack × Reply Item
sub_option none p = (p, refused Code.request_params)
sub_option (some it) p =
    if valid_item (some it) then sub_item it.conf_id it.num p else (p, refused Code.request_params)

-- The loop of `SubItems`: what was taken before a failure stays taken.
unfoldable pub sub_each : List (Option Item) → List Item → GamerPack → GamerPack × Reply (List Item)
unfolding sub_item valid_item
sub_each [] changed p = (p, done changed)
sub_each (it ∷ items) changed p =
    let (p', reply) = sub_option it p in
    elim reply [
      | refused code ↦ (p', refused code)
      | done change ↦ sub_each items (changed ++ change ∷ []) p'
    ]

unfoldable pub sub_items : List (Option Item) → GamerPack → GamerPack × Reply (List Item)
unfolding sub_each
sub_items [] p = (p, refused Code.request_params)
sub_items (it ∷ items) p = sub_each (it ∷ items) [] p

-- nil on a failure
unfoldable pub use_item : Option Item → GamerPack → GamerPack × Option (List Item)
unfolding sub_items
use_item item p =
    if not (valid_item item)
    then (p, none)
    else (let (p', reply) = sub_items (item ∷ []) p in
        (
          p',
          elim reply as (λ _. Option (List Item)) [
            | refused code ↦ none
            | done changed ↦ some changed
          ],
        ))

unfoldable pub get_afk_rewards_with_trans_item : List (Option Item) → List Item
unfolding valid_item
get_afk_rewards_with_trans_item [] = []
get_afk_rewards_with_trans_item (none ∷ items) = get_afk_rewards_with_trans_item items
get_afk_rewards_with_trans_item (some it ∷ items) =
    let rest = get_afk_rewards_with_trans_item items in
    if valid_item (some it) then it ∷ rest else rest
