-- ===== src/Battle/Proto.antt =====
-- src/service/battle/sync/proto_adapter.go and settlement.go: a room's snapshots, deltas and settlement
-- as protobuf messages. An enum of the generated code (proto/pb/client.pb.go) is its number; a
-- pointer to a message that may be nil is an Option.
pub mod Wire
use heli.Common.{
  ℕ, ℤ, pos, eqb_ℤ, Bool, String, List, [], ◌∷◌, map, Option, none, some, ◌≡◌, ◌⊎◌, inl, inr, refl,
  arith, if◌then◌else◌,
}
use heli.Common.Table.{Table}
use heli.Battle.Types.{
  FinishReason, MonsterStatus, DeltaType, Snapshot, PlayerSnapshot, TowerSnapshot, MinerSnapshot,
  MonsterSnapshot, Delta, Settlement, PlayerSettlement,
}

pub record BattleTowerState : Type 0 where
  pub tower_id : ℤ
  pub owner_player_id : ℤ
  pub tower_type : ℤ
  pub level : ℤ
  pub grid_id : ℤ

pub record BattleMinerState : Type 0 where
  pub miner_id : ℤ
  pub owner_player_id : ℤ
  pub next_produce_tick : ℤ

pub record BattlePlayerState : Type 0 where
  pub player_id : ℤ
  pub gold : ℤ
  pub mana : ℤ
  pub miners : List BattleMinerState

pub record BattleMonsterState : Type 0 where
  pub monster_id : ℤ
  pub monster_type : ℤ
  pub route_id : ℤ
  pub spawn_tick : ℤ
  pub progress : ℤ
  pub speed : ℤ
  pub hp : ℤ
  pub max_hp : ℤ
  pub status : ℕ

pub record BattleSnapshotNtf : Type 0 where
  pub room_id : String
  pub server_tick : ℤ
  pub players : List BattlePlayerState
  pub towers : List BattleTowerState
  pub monsters : List BattleMonsterState

pub record BattleStateDelta : Type 0 where
  pub type : ℕ
  pub server_tick : ℤ
  pub player_id : ℤ
  pub op_id : String
  pub tower_id : ℤ
  pub material_tower_id : ℤ
  pub miner_id : ℤ
  pub gold : ℤ
  pub mana : ℤ
  pub tower : Option BattleTowerState
  pub monster : Option BattleMonsterState

pub record BattleDeltaNtf : Type 0 where
  pub room_id : String
  pub server_tick : ℤ
  pub events : List BattleStateDelta

pub record BattlePlayerSettle : Type 0 where
  pub player_id : ℤ
  pub gold : ℤ
  pub mana : ℤ
  pub kill_count : ℤ
  pub summon_bounty_count : ℤ
  pub reward_gold : ℤ

pub record BattleSettleReq : Type 0 where
  pub room_id : String
  pub battle_id : String
  pub win : Bool
  pub start_tick : ℤ
  pub end_tick : ℤ
  pub finish_reason : ℕ
  pub players : List BattlePlayerSettle

unfoldable pub finish_reason_to_proto : FinishReason → ℕ
finish_reason_to_proto FinishReason.win = 1
finish_reason_to_proto FinishReason.lose = 2
finish_reason_to_proto FinishReason.timeout = 3
finish_reason_to_proto FinishReason.abort = 4
finish_reason_to_proto _ = 0

unfoldable pub monster_status_to_proto : MonsterStatus → ℕ
monster_status_to_proto MonsterStatus.alive = 1
monster_status_to_proto MonsterStatus.dead = 2
monster_status_to_proto MonsterStatus.arrived = 3
monster_status_to_proto MonsterStatus.paused = 4
monster_status_to_proto _ = 0

unfoldable pub delta_type_to_proto : DeltaType → ℕ
delta_type_to_proto DeltaType.resource_changed = 1
delta_type_to_proto DeltaType.tower_built = 2
delta_type_to_proto DeltaType.tower_rerolled = 3
delta_type_to_proto DeltaType.tower_merged = 4
delta_type_to_proto DeltaType.miner_bought = 5
delta_type_to_proto DeltaType.miner_produced = 6
delta_type_to_proto DeltaType.monster_spawned = 7
delta_type_to_proto DeltaType.monster_hp_changed = 8
delta_type_to_proto DeltaType.monster_status_changed = 9
delta_type_to_proto DeltaType.monster_dead = 10
delta_type_to_proto DeltaType.monster_arrived = 11
delta_type_to_proto DeltaType.monster_progress_fixed = 12

abbrev pub tower_snapshot_to_proto : TowerSnapshot → BattleTowerState
tower_snapshot_to_proto t = record {
  tower_id = t.tower_id;
  owner_player_id = t.owner_player_id;
  tower_type = t.type_id;
  level = t.level;
  grid_id = t.grid_id;
}

abbrev pub miner_snapshot_to_proto : ℤ → MinerSnapshot → BattleMinerState
miner_snapshot_to_proto owner_player_id m = record {
  miner_id = m.miner_id;
  owner_player_id = owner_player_id;
  next_produce_tick = m.next_produce_tick;
}

abbrev pub player_snapshot_to_proto : PlayerSnapshot → BattlePlayerState
player_snapshot_to_proto p = record {
  player_id = p.player_id;
  gold = p.gold;
  mana = p.mana;
  miners = map (miner_snapshot_to_proto p.player_id) p.miners;
}

unfoldable pub monster_snapshot_to_proto : MonsterSnapshot → BattleMonsterState
unfolding monster_status_to_proto
monster_snapshot_to_proto m = record {
  monster_id = m.monster_id;
  monster_type = m.monster_type;
  route_id = m.route_id;
  spawn_tick = m.spawn_tick;
  progress = m.progress;
  speed = m.speed;
  hp = m.hp;
  max_hp = m.max_hp;
  status = monster_status_to_proto m.status;
}

-- The values that `range` visits.
abbrev pub values {ℓ} : {V : Type ℓ} → Table ℤ V → List V
values [] = []
values ((k, v) ∷ m) = v ∷ values m

unfoldable pub snapshot_to_proto : String → Snapshot → BattleSnapshotNtf
unfolding monster_snapshot_to_proto
snapshot_to_proto room_id s = record {
  room_id = room_id;
  server_tick = s.server_tick;
  players = map player_snapshot_to_proto (values s.players);
  towers = map tower_snapshot_to_proto (values s.towers);
  monsters = map monster_snapshot_to_proto (values s.monsters);
}

unfoldable pub delta_to_proto : Delta → BattleStateDelta
unfolding delta_type_to_proto monster_snapshot_to_proto
delta_to_proto d = record {
  type = delta_type_to_proto d.type;
  server_tick = d.server_tick;
  player_id = d.player_id;
  op_id = d.op_id;
  tower_id = d.tower_id;
  material_tower_id = d.material_tower_id;
  miner_id = d.miner_id;
  gold = d.gold;
  mana = d.mana;
  tower = if eqb_ℤ d.tower.tower_id (pos 0) then none else some (tower_snapshot_to_proto d.tower);
  monster =
      if eqb_ℤ d.monster.monster_id (pos 0)
      then none
      else some (monster_snapshot_to_proto d.monster);
}

unfoldable pub deltas_to_proto : String → ℤ → List Delta → BattleDeltaNtf
unfolding delta_to_proto
deltas_to_proto room_id server_tick deltas = record {
  room_id = room_id;
  server_tick = server_tick;
  events = map delta_to_proto deltas;
}

abbrev pub settle_to_proto : PlayerSettlement → BattlePlayerSettle
settle_to_proto p = record {
  player_id = p.player_id;
  gold = p.gold;
  mana = p.mana;
  kill_count = p.kill_count;
  summon_bounty_count = p.summon_bounty_count;
  reward_gold = p.reward_gold;
}

unfoldable pub settlement_to_proto : Settlement → BattleSettleReq
unfolding finish_reason_to_proto
settlement_to_proto s = record {
  room_id = s.room_id;
  battle_id = s.battle_id;
  win = s.win;
  start_tick = s.start_tick;
  end_tick = s.end_tick;
  finish_reason = finish_reason_to_proto s.finish_reason;
  players = map settle_to_proto s.players;
}
