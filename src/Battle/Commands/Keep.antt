-- ===== src/Battle/Commands/Keep.antt =====
-- The player operations of src/service/battle/sync/room.go as one kind of event, and that each keeps
-- the towers and the grid in agreement.
use heli.Common.{
  ℤ, pos, ◌+ℤ◌, Is64, add64, add32, String, refl, sym, ◌∙◌, inl, inr, arith, int_eq, go_laws,
}
use heli.Common.Table.{find-erase_ne, erase}
use heli.Battle.Types.{Room, PlayerState, TowerState, OpResult}
use heli.Battle.Commands.{
  build_tower, reroll_tower, merge_tower, buy_miner, place_tower, retype_tower, fuse_towers,
}
use heli.Battle.Commands.Accepts.{
  CanBuild, CanReroll, CanMerge, build_tower_cases, reroll_tower_cases, merge_tower_cases,
  buy_miner_cases, drawn_room,
}
use heli.Battle.Commands.Effects.{
  place_tower_frame, retype_tower_frame, fuse_towers_frame, add_miner_frame, built_tower,
}
use heli.Battle.Commands.Grid.{GridAgrees, Agrees-build, Agrees-update, Agrees-erase}

pub data Command : Type 0 where
  build : ℤ → String → ℤ → Command
  reroll : ℤ → String → ℤ → Command
  merge : ℤ → String → ℤ → ℤ → Command
  buy : ℤ → String → Command

unfoldable pub run_command : Command → Room → Room × OpResult
run_command (build player_id op_id grid_id) = build_tower player_id op_id grid_id
run_command (reroll player_id op_id tower_id) = reroll_tower player_id op_id tower_id
run_command (merge player_id op_id main_id material_id) =
    merge_tower player_id op_id main_id material_id
run_command (buy player_id op_id) = buy_miner player_id op_id

-- A property of rooms that does not read the deltas.
place-GridAgrees :
    (player_id : ℤ) (op_id : String) (grid_id type_id : ℤ) (p : PlayerState) (r : Room)
    → GridAgrees r
    → Is64 (r.next_tower_id +ℤ pos 1)
    → CanBuild player_id grid_id r p type_id
    → GridAgrees (place_tower player_id op_id grid_id type_id p (drawn_room r)).0
place-GridAgrees player_id op_id grid_id type_id p r v room c =
    rw (place_tower_frame player_id op_id grid_id type_id p (drawn_room r)) (record {
      agrees =
          Agrees-build r.towers r.grid_tower r.next_tower_id r.cfg.tower_max_level v.agrees grid_id
            (built_tower player_id grid_id type_id r) refl refl (omega arith) v.limit_pos c.vacant
            (add64 r.next_tower_id (pos 1)) (omega go_laws);
      limit_pos = v.limit_pos;
      limit_int32 = v.limit_int32;
    })

retype-GridAgrees :
    (player_id : ℤ) (op_id : String) (tower_id type_id : ℤ) (p : PlayerState) (t : TowerState)
    (r : Room)
    → GridAgrees r
    → CanReroll player_id tower_id r p t type_id
    → GridAgrees (retype_tower player_id op_id tower_id type_id p t (drawn_room r)).0
retype-GridAgrees player_id op_id tower_id type_id p t r v c =
    let s = v.agrees.stands tower_id t c.found in
    rw (retype_tower_frame player_id op_id tower_id type_id p t (drawn_room r)) (record {
      agrees =
          Agrees-update r.towers r.grid_tower r.next_tower_id r.cfg.tower_max_level v.agrees
            tower_id t (record t { type_id = type_id }) c.found refl refl s.level_pos s.level_max;
      limit_pos = v.limit_pos;
      limit_int32 = v.limit_int32;
    })

fuse-GridAgrees :
    (player_id : ℤ) (op_id : String) (main_id material_id type_id : ℤ) (p : PlayerState)
    (m t : TowerState) (r : Room)
    → GridAgrees r
    → CanMerge player_id main_id material_id r p m t type_id
    → GridAgrees (fuse_towers player_id op_id main_id material_id type_id m t (drawn_room r)).0
fuse-GridAgrees player_id op_id main_id material_id type_id p m t r v c =
    let s = v.agrees.stands main_id m c.main_found in
    let low = s.level_pos in
    let high = c.below_max in
    let limit = v.limit_int32 in
    rw (fuse_towers_frame player_id op_id main_id material_id type_id m t (drawn_room r)) (record {
      agrees =
          Agrees-update (erase material_id r.towers) (erase t.grid_id r.grid_tower) r.next_tower_id
            r.cfg.tower_max_level
            (Agrees-erase r.towers r.grid_tower r.next_tower_id r.cfg.tower_max_level v.agrees
              material_id t c.material_found)
            main_id m (record m { type_id = type_id; level = add32 m.level (pos 1) })
            (find-erase_ne material_id main_id r.towers (λ e. c.distinct (sym e)) ∙ c.main_found)
            refl refl (omega go_laws) (omega go_laws);
      limit_pos = v.limit_pos;
      limit_int32 = v.limit_int32;
    })

-- Whatever a player asks for, and whether it is granted or refused: afterwards each tower stands
-- on its own cell of the grid, each taken cell has its tower, and levels lie in the limit. The
-- id counter must have room for one more tower.
pub run_command-GridAgrees :
    (c : Command) (r : Room)
    → GridAgrees r
    → Is64 (r.next_tower_id +ℤ pos 1)
    → GridAgrees (run_command c r).0
unfolding run_command
run_command-GridAgrees (build player_id op_id grid_id) r v room =
    elim (build_tower_cases player_id op_id grid_id r) [
      | inl (p, type_id, can, e) ↦
          rw e (place-GridAgrees player_id op_id grid_id type_id p r v room can)
      | inr (same, _) ↦ rw same v
    ]
run_command-GridAgrees (reroll player_id op_id tower_id) r v room =
    elim (reroll_tower_cases player_id op_id tower_id r) [
      | inl (p, t, type_id, can, e) ↦
          rw e (retype-GridAgrees player_id op_id tower_id type_id p t r v can)
      | inr (same, _) ↦ rw same v
    ]
run_command-GridAgrees (merge player_id op_id main_id material_id) r v room =
    elim (merge_tower_cases player_id op_id main_id material_id r) [
      | inl (p, m, t, type_id, can, e) ↦
          rw e (fuse-GridAgrees player_id op_id main_id material_id type_id p m t r v can)
      | inr (same, _) ↦ rw same v
    ]
run_command-GridAgrees (buy player_id op_id) r v room = elim (buy_miner_cases player_id op_id r) [
  | inl (p, known, enough, e) ↦
      rw (e, add_miner_frame player_id op_id p r)
        (record { agrees = v.agrees; limit_pos = v.limit_pos; limit_int32 = v.limit_int32 })
  | inr (same, _) ↦ rw same v
]
