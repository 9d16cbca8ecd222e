-- ===== src/Item/ItemTests.antt =====
-- The theorems on items at a concrete pack.
use heli.Common.{
  ℤ, pos, ◌+ℤ◌, ◌≤ℤ◌, Is64, eqb_ℤ, true, List, [], ◌∷◌, ◌≡◌, ◌≢◌, ◌⊎◌, inl, inr, arith, go_laws,
  if◌then◌else◌, All, int_eq, Bool-cases,
}
use heli.Common.Table.{find}
use heli.Item.Pack.{Item, Code, GamerPack, build_item, get_count}
use heli.Item.Merge.{item_merge}
use heli.Item.Module.{ItemModule, sub_items, add_items}
use heli.Item.Counts.{num_at}
use heli.Item.Totals.{Proper, Merged, total_of, item_merge_totals}
use heli.Item.Consume.{sub_items_exact}
use heli.Item.Gain.{add_items_counts}

abbrev pack : GamerPack
pack = record { item_map = (pos 5, build_item (pos 5) (pos 9)) ∷ []; ops = [] }

abbrev items : ItemModule
items = record { pack = pack; sent = [] }

-- Item 5 is asked for twice.
abbrev twice : List Item
twice = build_item (pos 5) (pos 3) ∷ build_item (pos 5) (pos 4) ∷ []

twice-Proper : All Proper twice
twice-Proper = (
  record { id_pos = omega arith; num_pos = omega arith },
  (record { id_pos = omega arith; num_pos = omega arith }, tt),
)

twice-Is64 : (id : ℤ) → Is64 (total_of id twice)
twice-Is64 id = elim (Bool-cases (eqb_ℤ (pos 5) id)) [
  | inl same ↦ rw same (omega go_laws)
  | inr other ↦ rw other (omega go_laws)
]

pack_count : (id : ℤ) → get_count id pack ≡ (if eqb_ℤ (pos 5) id then pos 9 else pos 0)
unfolding get_count find
pack_count id = ground arith

pack-Is64 : (id : ℤ) → Is64 (get_count id pack)
pack-Is64 id = elim (Bool-cases (eqb_ℤ (pos 5) id)) [
  | inl same ↦ rw (pack_count id, same) (omega go_laws)
  | inr other ↦ rw (pack_count id, other) (omega go_laws)
]

pack-nonneg : (id : ℤ) → pos 0 ≤ℤ get_count id pack
pack-nonneg id = elim (Bool-cases (eqb_ℤ (pos 5) id)) [
  | inl same ↦ rw (pack_count id, same) (omega go_laws)
  | inr other ↦ rw (pack_count id, other) (omega go_laws)
]

more-Is64 : (id : ℤ) → Is64 (get_count id pack +ℤ total_of id twice)
more-Is64 id = elim (Bool-cases (eqb_ℤ (pos 5) id)) [
  | inl same ↦ rw (pack_count id, same) (omega go_laws)
  | inr other ↦ rw (pack_count id, other) (omega go_laws)
]

sub_items_exact_example :
    let (s', code, ret) = sub_items (λ id. true) twice items in
    ((code ≡ Code.success)
      × ((id : ℤ) → get_count id s'.pack +ℤ total_of id twice ≡ get_count id pack))
    ⊎ ((code ≢ Code.success) × (s' ≡ items))
sub_items_exact_example = sub_items_exact (λ id. true) twice items twice-Proper twice-Is64 pack-Is64

add_items_counts_example :
    let (s', code, ret) = add_items twice items in
    (code ≡ Code.success)
    × ((id : ℤ) → get_count id s'.pack ≡ get_count id pack +ℤ total_of id twice)
add_items_counts_example =
    add_items_counts (build_item (pos 5) (pos 3)) (build_item (pos 5) (pos 4) ∷ []) items
      twice-Proper twice-Is64 pack-nonneg more-Is64

item_merge_totals_example :
    Merged (item_merge twice) × ((id : ℤ) → num_at id (item_merge twice) ≡ total_of id twice)
item_merge_totals_example = item_merge_totals twice twice-Proper twice-Is64
