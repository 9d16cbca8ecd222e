-- ===== src/Battle/Deltas.antt =====
-- src/service/battle/sync/room.go: snapshots of single objects, and the deltas that operations leave.
use heli.Common.{ℤ, pos, false, String, [], ◌∷◌, ◌++◌, none, some, int_eq}
use heli.Common.Table.{find}
use heli.Battle.Types.{
  Room, TowerState, MonsterState, TowerSnapshot, MonsterSnapshot, Delta, DeltaType, ErrorCode,
  OpResult, blank_delta,
}

abbrev pub tower_snapshot : TowerState → TowerSnapshot
tower_snapshot t = record {
  tower_id = t.tower_id;
  owner_player_id = t.owner_player_id;
  type_id = t.type_id;
  level = t.level;
  grid_id = t.grid_id;
}

abbrev pub monster_snapshot : MonsterState → MonsterSnapshot
monster_snapshot m = record {
  monster_id = m.monster_id;
  monster_type = m.monster_type;
  route_id = m.route_id;
  spawn_tick = m.spawn_tick;
  progress = m.progress;
  speed = m.speed;
  hp = m.hp;
  max_hp = m.max_hp;
  status = m.status;
}

abbrev pub push_delta : Delta → Room → Room
push_delta d r = record r { deltas = r.deltas ++ d ∷ [] }

-- The callers have just found or stored the player, so the pointer is never nil.
unfoldable pub append_resource_delta : ℤ → String → Room → Room
append_resource_delta player_id op_id r = elim (find player_id r.players) [
  | none ↦ r
  | some p ↦
      push_delta
        (record (blank_delta DeltaType.resource_changed r.server_tick) {
          player_id = player_id;
          op_id = op_id;
          gold = p.gold;
          mana = p.mana;
        })
        r
]

unfoldable pub append_tower_delta : DeltaType → ℤ → String → TowerState → ℤ → Room → Room
append_tower_delta type player_id op_id tower material_tower_id r =
    push_delta
      (record (blank_delta type r.server_tick) {
        player_id = player_id;
        op_id = op_id;
        tower_id = tower.tower_id;
        material_tower_id = material_tower_id;
        tower = tower_snapshot tower;
      })
      r

unfoldable pub monster_delta : DeltaType → MonsterState → ℤ → Delta
monster_delta type m server_tick = record (blank_delta type server_tick) {
  monster_id = m.monster_id;
  monster = monster_snapshot m;
}

unfoldable pub append_monster_delta : DeltaType → MonsterState → Room → Room
unfolding monster_delta
append_monster_delta type m r = push_delta (monster_delta type m r.server_tick) r

abbrev pub fail : String → ErrorCode → OpResult
fail op_id code = record {
  is_ok = false;
  code = code;
  op_id = op_id;
  tower_id = pos 0;
  miner_id = pos 0;
}
