-- ===== src/Battle/Types.antt =====
-- The data of src/service/battle/sync/room.go and settlement.go. An `int64` or `int32` is a ℤ; a map is a
-- `Table`. A Go string type with named constants is a data type; `unset` is its zero value, "".
use heli.Common.{ℤ, pos, ℕ, Bool, String, List, Option}
use heli.Common.Table.{Table}

pub data ErrorCode : Type 0 where
  ok player_exists player_not_found no_tower_in_deck not_enough_gold not_enough_mana : ErrorCode
  grid_not_in_build_area grid_occupied tower_not_found tower_not_owned : ErrorCode
  tower_merge_mismatch tower_max_level : ErrorCode

pub data RoomState : Type 0 where
  created running closed : RoomState

pub data FinishReason : Type 0 where
  unset none_yet win lose timeout abort : FinishReason

pub data MonsterStatus : Type 0 where
  unset no_status alive dead arrived paused : MonsterStatus

pub data DeltaType : Type 0 where
  resource_changed tower_built tower_rerolled tower_merged : DeltaType
  miner_bought miner_produced monster_spawned monster_hp_changed : DeltaType
  monster_status_changed monster_dead monster_arrived monster_progress_fixed : DeltaType

pub record MonsterWaveConfig : Type 0 where
  pub start_tick : ℤ
  pub route_id : ℤ
  pub monster_type : ℤ
  pub monster_count : ℤ
  pub spawn_gap_tick : ℤ
  pub speed : ℤ
  pub hp : ℤ
  pub reward_gold : ℤ
  pub path_length : ℤ

-- `monster_waves` tells a nil slice, `none`, from an empty one.
pub record RoomConfig : Type 0 where
  pub initial_gold : ℤ
  pub initial_mana : ℤ
  pub build_cost_gold : ℤ
  pub reroll_cost_mana : ℤ
  pub miner_cost_gold : ℤ
  pub miner_produce_mana : ℤ
  pub miner_produce_interval : ℤ
  pub tower_max_level : ℤ
  pub default_tower_deck : List ℤ
  pub random_tower_types : List ℤ
  pub build_grids_by_player : Table ℤ (List ℤ)
  pub base_hp : ℤ
  pub monster_damage : ℤ
  pub wave_timeout_tick : ℤ
  pub monster_waves : Option (List MonsterWaveConfig)

pub record MinerState : Type 0 where
  pub miner_id : ℤ
  pub owner_player_id : ℤ
  pub next_produce_tick : ℤ

pub record PlayerState : Type 0 where
  pub player_id : ℤ
  pub gold : ℤ
  pub mana : ℤ
  pub tower_deck : List ℤ
  pub miners : Table ℤ MinerState

pub record TowerState : Type 0 where
  pub tower_id : ℤ
  pub owner_player_id : ℤ
  pub type_id : ℤ
  pub level : ℤ
  pub grid_id : ℤ

pub record MonsterWaveState : Type 0 where
  pub wave_id : ℤ
  pub config : MonsterWaveConfig
  pub spawned_count : ℤ
  pub finished : Bool

pub record MonsterState : Type 0 where
  pub monster_id : ℤ
  pub wave_id : ℤ
  pub monster_type : ℤ
  pub route_id : ℤ
  pub spawn_tick : ℤ
  pub progress : ℤ
  pub speed : ℤ
  pub hp : ℤ
  pub max_hp : ℤ
  pub reward_gold : ℤ
  pub path_length : ℤ
  pub status : MonsterStatus
  pub finished_tick : ℤ

pub record MonsterSnapshot : Type 0 where
  pub monster_id : ℤ
  pub monster_type : ℤ
  pub route_id : ℤ
  pub spawn_tick : ℤ
  pub progress : ℤ
  pub speed : ℤ
  pub hp : ℤ
  pub max_hp : ℤ
  pub status : MonsterStatus

pub record TowerSnapshot : Type 0 where
  pub tower_id : ℤ
  pub owner_player_id : ℤ
  pub type_id : ℤ
  pub level : ℤ
  pub grid_id : ℤ

pub record MinerSnapshot : Type 0 where
  pub miner_id : ℤ
  pub next_produce_tick : ℤ

pub record PlayerSnapshot : Type 0 where
  pub player_id : ℤ
  pub gold : ℤ
  pub mana : ℤ
  pub miners : List MinerSnapshot

pub record Snapshot : Type 0 where
  pub server_tick : ℤ
  pub state : RoomState
  pub start_tick : ℤ
  pub end_tick : ℤ
  pub base_hp : ℤ
  pub finish_reason : FinishReason
  pub players : Table ℤ PlayerSnapshot
  pub towers : Table ℤ TowerSnapshot
  pub monsters : Table ℤ MonsterSnapshot

pub record Delta : Type 0 where
  pub type : DeltaType
  pub server_tick : ℤ
  pub player_id : ℤ
  pub op_id : String
  pub tower_id : ℤ
  pub material_tower_id : ℤ
  pub miner_id : ℤ
  pub monster_id : ℤ
  pub gold : ℤ
  pub mana : ℤ
  pub tower : TowerSnapshot
  pub monster : MonsterSnapshot

pub record OpResult : Type 0 where
  pub is_ok : Bool
  pub code : ErrorCode
  pub op_id : String
  pub tower_id : ℤ
  pub miner_id : ℤ

-- `random_index` only counts the towers drawn, so it is a natural number.
pub record Room : Type 0 where
  pub cfg : RoomConfig
  pub state : RoomState
  pub server_tick : ℤ
  pub start_tick : ℤ
  pub end_tick : ℤ
  pub next_tower_id : ℤ
  pub next_miner_id : ℤ
  pub next_wave_id : ℤ
  pub next_monster_id : ℤ
  pub random_index : ℕ
  pub finish_reason : FinishReason
  pub settled : Bool
  pub base_hp : ℤ
  pub players : Table ℤ PlayerState
  pub towers : Table ℤ TowerState
  pub grid_tower : Table ℤ ℤ
  pub monsters : Table ℤ MonsterState
  pub waves : List MonsterWaveState
  pub deltas : List Delta

pub record PlayerSettlement : Type 0 where
  pub player_id : ℤ
  pub gold : ℤ
  pub mana : ℤ
  pub kill_count : ℤ
  pub summon_bounty_count : ℤ
  pub reward_gold : ℤ

pub record Settlement : Type 0 where
  pub room_id : String
  pub battle_id : String
  pub win : Bool
  pub start_tick : ℤ
  pub end_tick : ℤ
  pub finish_reason : FinishReason
  pub players : List PlayerSettlement

-- The zero values of the snapshots that a delta carries.
abbrev pub no_tower : TowerSnapshot
no_tower = record {
  tower_id = pos 0;
  owner_player_id = pos 0;
  type_id = pos 0;
  level = pos 0;
  grid_id = pos 0;
}

abbrev pub no_monster : MonsterSnapshot
no_monster = record {
  monster_id = pos 0;
  monster_type = pos 0;
  route_id = pos 0;
  spawn_tick = pos 0;
  progress = pos 0;
  speed = pos 0;
  hp = pos 0;
  max_hp = pos 0;
  status = MonsterStatus.unset;
}

-- The zero `Delta` of a type and a tick: the fields that a literal leaves out.
abbrev pub blank_delta : DeltaType → ℤ → Delta
blank_delta type server_tick = record {
  type = type;
  server_tick = server_tick;
  player_id = pos 0;
  op_id = "";
  tower_id = pos 0;
  material_tower_id = pos 0;
  miner_id = pos 0;
  monster_id = pos 0;
  gold = pos 0;
  mana = pos 0;
  tower = no_tower;
  monster = no_monster;
}
