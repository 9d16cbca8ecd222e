-- ===== src/Battle/Commands/Effects.antt =====
-- What an accepted operation of src/service/battle/sync/room.go does to each field of the room. The
-- proofs about them read these equations and keep the operations shut.
use heli.Common.{ℤ, pos, add64, sub64, add32, String, ◌≡◌, arith, int_eq, Option-cases, inl, inr}
use heli.Common.Table.{find, insert, erase}
use heli.Battle.Types.{Room, PlayerState, TowerState, MinerState}
use heli.Battle.Deltas.{append_resource_delta}
use heli.Battle.Commands.{place_tower, retype_tower, fuse_towers, add_miner, produce_interval}

-- All but the deltas is as before.
pub append_resource_delta_frame :
    (player_id : ℤ) (op_id : String) (r : Room)
    → append_resource_delta player_id op_id r
      ≡ record r { deltas = (append_resource_delta player_id op_id r).deltas }
unfolding append_resource_delta
append_resource_delta_frame player_id op_id r = elim (Option-cases (find player_id r.players)) [
  | inl e ↦ ground arith
  | inr (p, e) ↦ ground arith
]

-- The tower that `BuildTower` stores.
abbrev pub built_tower : ℤ → ℤ → ℤ → Room → TowerState
built_tower player_id grid_id type_id r = record {
  tower_id = r.next_tower_id;
  owner_player_id = player_id;
  type_id = type_id;
  level = pos 1;
  grid_id = grid_id;
}

-- The room after a build, its deltas aside.
abbrev pub room_built : ℤ → ℤ → ℤ → PlayerState → Room → Room
room_built player_id grid_id type_id p r = record r {
  next_tower_id = add64 r.next_tower_id (pos 1);
  players = insert player_id (record p { gold = sub64 p.gold r.cfg.build_cost_gold }) r.players;
  towers = insert r.next_tower_id (built_tower player_id grid_id type_id r) r.towers;
  grid_tower = insert grid_id r.next_tower_id r.grid_tower;
}

pub place_tower_frame :
    (player_id : ℤ) (op_id : String) (grid_id type_id : ℤ) (p : PlayerState) (r : Room)
    → (place_tower player_id op_id grid_id type_id p r).0
      ≡ record (room_built player_id grid_id type_id p r) {
        deltas = (place_tower player_id op_id grid_id type_id p r).0.deltas;
      }
unfolding place_tower
place_tower_frame player_id op_id grid_id type_id p r = ground arith

abbrev pub room_retyped : ℤ → ℤ → ℤ → PlayerState → TowerState → Room → Room
room_retyped player_id tower_id type_id p t r = record r {
  players = insert player_id (record p { mana = sub64 p.mana r.cfg.reroll_cost_mana }) r.players;
  towers = insert tower_id (record t { type_id = type_id }) r.towers;
}

pub retype_tower_frame :
    (player_id : ℤ) (op_id : String) (tower_id type_id : ℤ) (p : PlayerState) (t : TowerState)
    (r : Room)
    → (retype_tower player_id op_id tower_id type_id p t r).0
      ≡ record (room_retyped player_id tower_id type_id p t r) {
        deltas = (retype_tower player_id op_id tower_id type_id p t r).0.deltas;
      }
unfolding retype_tower
retype_tower_frame player_id op_id tower_id type_id p t r = ground arith

abbrev pub room_fused : ℤ → ℤ → ℤ → TowerState → TowerState → Room → Room
room_fused main_id material_id type_id m t r = record r {
  towers =
      insert main_id (record m { type_id = type_id; level = add32 m.level (pos 1) })
        (erase material_id r.towers);
  grid_tower = erase t.grid_id r.grid_tower;
}

pub fuse_towers_frame :
    (player_id : ℤ) (op_id : String) (main_id material_id type_id : ℤ) (m t : TowerState) (r : Room)
    → (fuse_towers player_id op_id main_id material_id type_id m t r).0
      ≡ record (room_fused main_id material_id type_id m t r) {
        deltas = (fuse_towers player_id op_id main_id material_id type_id m t r).0.deltas;
      }
unfolding fuse_towers
fuse_towers_frame player_id op_id main_id material_id type_id m t r = ground arith

abbrev pub bought_miner : ℤ → Room → MinerState
bought_miner player_id r = record {
  miner_id = r.next_miner_id;
  owner_player_id = player_id;
  next_produce_tick = add64 r.server_tick (produce_interval r);
}

abbrev pub room_staffed : ℤ → PlayerState → Room → Room
room_staffed player_id p r = record r {
  next_miner_id = add64 r.next_miner_id (pos 1);
  players =
      insert player_id
        (record p {
          gold = sub64 p.gold r.cfg.miner_cost_gold;
          miners = insert r.next_miner_id (bought_miner player_id r) p.miners;
        })
        r.players;
}

pub add_miner_frame :
    (player_id : ℤ) (op_id : String) (p : PlayerState) (r : Room)
    → (add_miner player_id op_id p r).0
      ≡ record (room_staffed player_id p r) { deltas = (add_miner player_id op_id p r).0.deltas }
unfolding add_miner
add_miner_frame player_id op_id p r = ground arith
