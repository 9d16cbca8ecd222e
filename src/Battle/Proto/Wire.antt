-- ===== src/Battle/Proto/Wire.antt =====
-- What a client can read back from the deltas of src/service/battle/sync/proto_adapter.go.
use heli.Common.{
  ℤ, pos, String, List, [], ◌∷◌, map, ◌≡◌, ◌≢◌, ap, refl, sym, ◌∙◌, arith, eqb_ℤ, eqb_ℤ_iff,
  Bool-cases, inl, inr, All,
}
use heli.Battle.Types.{Delta, DeltaType, MonsterStatus, no_tower, no_monster}
use heli.Battle.Proto.{
  delta_type_to_proto, monster_status_to_proto, delta_to_proto, deltas_to_proto, BattleStateDelta,
  BattleDeltaNtf,
}

-- A delta of the room: a snapshot that it does not carry is the zero one, a monster that it carries
-- has a status, and its own monster id is that of its monster.
pub record WellFormed (d : Delta) : Type 0 where
  pub tower_absent : d.tower.tower_id ≡ pos 0 → d.tower ≡ no_tower
  pub monster_absent : d.monster.monster_id ≡ pos 0 → d.monster ≡ no_monster
  pub monster_status :
      d.monster.monster_id ≢ pos 0
      → (d.monster.status ≢ MonsterStatus.unset) × (d.monster.status ≢ MonsterStatus.no_status)
  pub monster_named : d.monster_id ≡ d.monster.monster_id

pub delta_type_to_proto_injective :
    (a b : DeltaType) → delta_type_to_proto a ≡ delta_type_to_proto b → a ≡ b
unfolding delta_type_to_proto
delta_type_to_proto_injective a b h = ground arith

status_injective :
    (a b : MonsterStatus)
    → a ≢ MonsterStatus.unset
    → a ≢ MonsterStatus.no_status
    → b ≢ MonsterStatus.unset
    → b ≢ MonsterStatus.no_status
    → monster_status_to_proto a ≡ monster_status_to_proto b
    → a ≡ b
unfolding monster_status_to_proto
status_injective a b p q u v h = ground arith

tower_injective :
    (d e : Delta)
    → WellFormed d
    → WellFormed e
    → (delta_to_proto d).tower ≡ (delta_to_proto e).tower
    → d.tower ≡ e.tower
unfolding delta_to_proto
tower_injective d e wd we h = elim (Bool-cases (eqb_ℤ d.tower.tower_id (pos 0))) [
  | inl zd ↦ elim (Bool-cases (eqb_ℤ e.tower.tower_id (pos 0))) [
    | inl ze ↦
        let a = wd.tower_absent ((eqb_ℤ_iff d.tower.tower_id (pos 0)).0 zd) in
        let b = we.tower_absent ((eqb_ℤ_iff e.tower.tower_id (pos 0)).0 ze) in a ∙ sym b
    | inr ne ↦ absurd (ground arith)
  ]
  | inr nd ↦ elim (Bool-cases (eqb_ℤ e.tower.tower_id (pos 0))) [
    | inl ze ↦ absurd (ground arith)
    | inr ne ↦ ground arith
  ]
]

monster_injective :
    (d e : Delta)
    → WellFormed d
    → WellFormed e
    → (delta_to_proto d).monster ≡ (delta_to_proto e).monster
    → d.monster ≡ e.monster
unfolding delta_to_proto
monster_injective d e wd we h = elim (Bool-cases (eqb_ℤ d.monster.monster_id (pos 0))) [
  | inl zd ↦ elim (Bool-cases (eqb_ℤ e.monster.monster_id (pos 0))) [
    | inl ze ↦
        let a = wd.monster_absent ((eqb_ℤ_iff d.monster.monster_id (pos 0)).0 zd) in
        let b = we.monster_absent ((eqb_ℤ_iff e.monster.monster_id (pos 0)).0 ze) in a ∙ sym b
    | inr ne ↦ absurd (ground arith)
  ]
  | inr nd ↦ elim (Bool-cases (eqb_ℤ e.monster.monster_id (pos 0))) [
    | inl ze ↦ absurd (ground arith)
    | inr ne ↦
        let p =
          wd.monster_status (λ z. ground (arith, (eqb_ℤ_iff d.monster.monster_id (pos 0)).1 z)) in
        let q =
          we.monster_status (λ z. ground (arith, (eqb_ℤ_iff e.monster.monster_id (pos 0)).1 z)) in
        ground (arith, status_injective d.monster.status e.monster.status p.0 p.1 q.0 q.1)
  ]
]

delta_injective :
    (d e : Delta) → WellFormed d → WellFormed e → delta_to_proto d ≡ delta_to_proto e → d ≡ e
delta_injective d e wd we h =
    let tower = tower_injective d e wd we (ap (λ (m : BattleStateDelta). m.tower) h) in
    let monster = monster_injective d e wd we (ap (λ (m : BattleStateDelta). m.monster) h) in
    unfold delta_to_proto in
    (ground
      (arith, delta_type_to_proto_injective d.type e.type, wd.monster_named, we.monster_named))

events_injective :
    (ds es : List Delta)
    → All WellFormed ds
    → All WellFormed es
    → map delta_to_proto ds ≡ map delta_to_proto es
    → ds ≡ es
events_injective [] [] wd we h = refl
events_injective [] (e ∷ es) wd we h = cc
events_injective (d ∷ ds) [] wd we h = cc
events_injective (d ∷ ds) (e ∷ es) wd we h =
    ground (arith, delta_injective d e wd.0 we.0, events_injective ds es wd.1 we.1)

-- A broadcast loses nothing: two sequences of well-formed deltas that are sent as the same message
-- are the same sequence, of the same length and in the same order.
pub deltas_to_proto_injective :
    (room_id : String) (tick : ℤ) (ds es : List Delta)
    → All WellFormed ds
    → All WellFormed es
    → deltas_to_proto room_id tick ds ≡ deltas_to_proto room_id tick es
    → ds ≡ es
unfolding deltas_to_proto
deltas_to_proto_injective room_id tick ds es wd we h =
    events_injective ds es wd we (ap (λ (m : BattleDeltaNtf). m.events) h)
