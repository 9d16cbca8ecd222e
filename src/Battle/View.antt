-- ===== src/Battle/View.antt =====
-- src/service/battle/sync/room.go: what a room shows: snapshots, the deltas since the last flush, and
-- the settlement.
use heli.Common.{ℤ, pos, String, List, [], ◌∷◌, map, Bool, true, false, none, some, int_eq}
use heli.Common.Table.{Table, find}
use heli.Common.Sort.{sort_by}
use heli.Battle.Types.{
  Room, FinishReason, Snapshot, PlayerState, PlayerSnapshot, MinerState, MinerSnapshot, Delta,
  Settlement, PlayerSettlement,
}
use heli.Battle.Deltas.{tower_snapshot, monster_snapshot}

abbrev pub miner_snapshot : ℤ × MinerState → MinerSnapshot
miner_snapshot (id, m) = record { miner_id = m.miner_id; next_produce_tick = m.next_produce_tick }

unfoldable pub player_snapshot : PlayerState → PlayerSnapshot
player_snapshot p = record {
  player_id = p.player_id;
  gold = p.gold;
  mana = p.mana;
  miners = sort_by (λ m. m.miner_id) (map miner_snapshot p.miners);
}

-- A `range` loop that fills a map with the images of another's values.
unfoldable pub map_values {ℓ κ} : {V : Type ℓ} {W : Type κ} → (V → W) → Table ℤ V → Table ℤ W
map_values f [] = []
map_values f ((k, v) ∷ m) = (k, f v) ∷ map_values f m

unfoldable pub snapshot : Room → Snapshot
unfolding player_snapshot map_values
snapshot r = record {
  server_tick = r.server_tick;
  state = r.state;
  start_tick = r.start_tick;
  end_tick = r.end_tick;
  base_hp = r.base_hp;
  finish_reason = r.finish_reason;
  players = map_values player_snapshot r.players;
  towers = map_values tower_snapshot r.towers;
  monsters = map_values monster_snapshot r.monsters;
}

unfoldable pub flush_deltas : Room → Room × List Delta
flush_deltas r = (record r { deltas = [] }, r.deltas)

abbrev pub is_win : FinishReason → Bool
is_win FinishReason.win = true
is_win _ = false

abbrev pub settle_player : PlayerState → PlayerSettlement
settle_player p = record {
  player_id = p.player_id;
  gold = p.gold;
  mana = p.mana;
  kill_count = pos 0;
  summon_bounty_count = pos 0;
  reward_gold = pos 0;
}

abbrev pub ids : Table ℤ PlayerState → List ℤ
ids [] = []
ids ((id, p) ∷ ps) = id ∷ ids ps

-- The second loop of `BuildSettlement`; an id that it visits is a key of the map.
unfoldable pub settle_players : List ℤ → Table ℤ PlayerState → List PlayerSettlement
settle_players [] players = []
settle_players (id ∷ rest) players = elim (find id players) [
  | none ↦ settle_players rest players
  | some p ↦ settle_player p ∷ settle_players rest players
]

unfoldable pub build_settlement : String → Room → Settlement
unfolding settle_players
build_settlement room_id r = record {
  room_id = room_id;
  battle_id = room_id;
  win = is_win r.finish_reason;
  start_tick = r.start_tick;
  end_tick = r.end_tick;
  finish_reason = r.finish_reason;
  players = settle_players (sort_by (λ id. id) (ids r.players)) r.players;
}
