-- ===== src/Battle/Commands/Granted.antt =====
-- When the player operations of src/service/battle/sync/room.go are granted.
use heli.Common.{ℤ, String, true, false, ◌≡◌, ◌↔◌, refl, inl, inr, arith, int_eq}
use heli.Battle.Types.{Room, PlayerState, TowerState}
use heli.Battle.Commands.{
  build_tower, merge_tower, place_tower, retype_tower, fuse_towers, add_miner,
}
use heli.Battle.Commands.Accepts.{
  CanBuild, CanMerge, build_tower-eq_of_CanBuild, merge_tower-eq_of_CanMerge, build_tower_cases,
  reroll_tower_cases, merge_tower_cases, buy_miner_cases, drawn_room,
}
use heli.Battle.Commands.Keep.{Command, build, reroll, merge, buy, run_command}

place_tower_ok :
    (player_id : ℤ) (op_id : String) (grid_id type_id : ℤ) (p : PlayerState) (r : Room)
    → (place_tower player_id op_id grid_id type_id p r).1.is_ok ≡ true
unfolding place_tower
place_tower_ok player_id op_id grid_id type_id p r = refl

retype_tower_ok :
    (player_id : ℤ) (op_id : String) (tower_id type_id : ℤ) (p : PlayerState) (t : TowerState)
    (r : Room)
    → (retype_tower player_id op_id tower_id type_id p t r).1.is_ok ≡ true
unfolding retype_tower
retype_tower_ok player_id op_id tower_id type_id p t r = refl

fuse_towers_ok :
    (player_id : ℤ) (op_id : String) (main_id material_id type_id : ℤ) (m t : TowerState) (r : Room)
    → (fuse_towers player_id op_id main_id material_id type_id m t r).1.is_ok ≡ true
unfolding fuse_towers
fuse_towers_ok player_id op_id main_id material_id type_id m t r = refl

add_miner_ok :
    (player_id : ℤ) (op_id : String) (p : PlayerState) (r : Room)
    → (add_miner player_id op_id p r).1.is_ok ≡ true
unfolding add_miner
add_miner_ok player_id op_id p r = refl

-- A player operation that reports a failure leaves the whole room as it was: no price is taken, no
-- id is used up, no delta is left, and the draw of tower types does not move on.
pub run_command_refused :
    (c : Command) (r : Room) → (run_command c r).1.is_ok ≡ false → (run_command c r).0 ≡ r
unfolding run_command
run_command_refused (build player_id op_id grid_id) r h =
    elim (build_tower_cases player_id op_id grid_id r) [
      | inr (same, refused) ↦ same
      | inl (p, type_id, can, e) ↦
          absurd (ground (arith, place_tower_ok player_id op_id grid_id type_id p (drawn_room r)))
    ]
run_command_refused (reroll player_id op_id tower_id) r h =
    elim (reroll_tower_cases player_id op_id tower_id r) [
      | inr (same, refused) ↦ same
      | inl (p, t, type_id, can, e) ↦
          absurd
            (ground (arith, retype_tower_ok player_id op_id tower_id type_id p t (drawn_room r)))
    ]
run_command_refused (merge player_id op_id main_id material_id) r h =
    elim (merge_tower_cases player_id op_id main_id material_id r) [
      | inr (same, refused) ↦ same
      | inl (p, m, t, type_id, can, e) ↦ absurd (
          ground
            (arith, fuse_towers_ok player_id op_id main_id material_id type_id m t (drawn_room r)))
    ]
run_command_refused (buy player_id op_id) r h = elim (buy_miner_cases player_id op_id r) [
  | inr (same, refused) ↦ same
  | inl (p, known, cover, e) ↦ absurd (ground (arith, add_miner_ok player_id op_id p r))
]

-- A build is granted exactly if the player is in the room, the cell is in the player's build area
-- and vacant, the player's gold covers the price, and the player's pool has a tower at the
-- round-robin index.
pub build_tower_granted_iff :
    (player_id : ℤ) (op_id : String) (grid_id : ℤ) (r : Room)
    → ((build_tower player_id op_id grid_id r).1.is_ok ≡ true)
      ↔ ((p : PlayerState) × (type_id : ℤ) × CanBuild player_id grid_id r p type_id)
build_tower_granted_iff player_id op_id grid_id r = (
  λ h. elim (build_tower_cases player_id op_id grid_id r) [
    | inr (same, refused) ↦ absurd (ground arith)
    | inl (p, type_id, can, e) ↦ (p, type_id, can)
  ],
  λ (p, type_id, can).
      rw (build_tower-eq_of_CanBuild player_id op_id grid_id r p type_id can)
        (place_tower_ok player_id op_id grid_id type_id p (drawn_room r)),
)

-- A merge is granted exactly if the player is in the room and owns both towers, which are distinct
-- and agree in type and level, the main tower's level is below the limit, and the player's pool
-- has a tower at the round-robin index.
pub merge_tower_granted_iff :
    (player_id : ℤ) (op_id : String) (main_id material_id : ℤ) (r : Room)
    → ((merge_tower player_id op_id main_id material_id r).1.is_ok ≡ true) ↔ (
        (p : PlayerState) × (m : TowerState) × (t : TowerState) × (type_id : ℤ) × CanMerge player_id
          main_id material_id r p m t type_id)
merge_tower_granted_iff player_id op_id main_id material_id r = (
  λ h. elim (merge_tower_cases player_id op_id main_id material_id r) [
    | inr (same, refused) ↦ absurd (ground arith)
    | inl (p, m, t, type_id, can, e) ↦ (p, m, t, type_id, can)
  ],
  λ (p, m, t, type_id, can).
      rw (merge_tower-eq_of_CanMerge player_id op_id main_id material_id r p m t type_id can)
        (fuse_towers_ok player_id op_id main_id material_id type_id m t (drawn_room r)),
)
