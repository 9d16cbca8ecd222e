-- ===== src/Battle/Commands.antt =====
-- src/service/battle/sync/room.go: the four player operations. Each checks in the order of the source
-- and returns the first failure with the room as it was; `nextTowerType`, the last check, moves the
-- room on only when it succeeds.
pub mod Area
pub mod Accepts
pub mod Effects
pub mod Grid
pub mod Granted
pub mod Keep
pub mod Purse
use heli.Common.{
  ℤ, pos, ◌||◌, not, ltb_ℤ, leb_ℤ, eqb_ℤ, add64, sub64, add32, Bool, true, String, ◌++◌, [], ◌∷◌,
  if◌then◌else◌, int_eq,
}
use heli.Common.Table.{find, insert, erase}
use heli.Battle.Types.{
  Room, TowerState, MinerState, PlayerState, DeltaType, ErrorCode, OpResult, blank_delta,
}
use heli.Battle.Results.{Result, accept, refuse, ◌>>=◌, ◌>>◌, refuse_if, or_refuse}
use heli.Battle.Room.{is_some, can_build_on, next_tower_type, alloc_tower_id, alloc_miner_id}
use heli.Battle.Deltas.{fail, append_resource_delta, append_tower_delta, push_delta}

-- What the caller sees: a refused operation leaves the room alone and reports its code.
abbrev pub answer : String → Room → Result (Room × OpResult) → Room × OpResult
answer op_id r (accept a) = a
answer op_id r (refuse code) = (r, fail op_id code)

abbrev pub success : String → ℤ → ℤ → OpResult
success op_id tower_id miner_id = record {
  is_ok = true;
  code = ErrorCode.ok;
  op_id = op_id;
  tower_id = tower_id;
  miner_id = miner_id;
}

-- From `p.Gold -= cost` on.
unfoldable pub place_tower : ℤ → String → ℤ → ℤ → PlayerState → Room → Room × OpResult
unfolding alloc_tower_id append_resource_delta append_tower_delta
place_tower player_id op_id grid_id type_id p r =
    let paid : PlayerState = record p { gold = sub64 p.gold r.cfg.build_cost_gold } in
    let (tower_id, r₁) = alloc_tower_id (record r { players = insert player_id paid r.players }) in
    let tower : TowerState = record {
      tower_id = tower_id;
      owner_player_id = player_id;
      type_id = type_id;
      level = pos 1;
      grid_id = grid_id;
    } in
    let r₂ : Room = record r₁ {
      towers = insert tower_id tower r₁.towers;
      grid_tower = insert grid_id tower_id r₁.grid_tower;
    } in
    (
      append_tower_delta DeltaType.tower_built player_id op_id tower (pos 0)
          (append_resource_delta player_id op_id r₂),
      success op_id tower_id (pos 0),
    )

unfoldable pub build_tower : ℤ → String → ℤ → Room → Room × OpResult
build_tower player_id op_id grid_id r = answer op_id r (do
  p ← or_refuse (find player_id r.players) ErrorCode.player_not_found
  refuse_if (not (can_build_on player_id grid_id r)) ErrorCode.grid_not_in_build_area
  refuse_if (is_some (find grid_id r.grid_tower)) ErrorCode.grid_occupied
  refuse_if (ltb_ℤ p.gold r.cfg.build_cost_gold) ErrorCode.not_enough_gold
  drawn ← or_refuse (next_tower_type p r) ErrorCode.no_tower_in_deck
  accept (place_tower player_id op_id grid_id drawn.0 p drawn.1))

-- From `p.Mana -= cost` on.
unfoldable pub retype_tower : ℤ → String → ℤ → ℤ → PlayerState → TowerState → Room → Room × OpResult
unfolding append_resource_delta append_tower_delta
retype_tower player_id op_id tower_id type_id p t r =
    let paid : PlayerState = record p { mana = sub64 p.mana r.cfg.reroll_cost_mana } in
    let tower : TowerState = record t { type_id = type_id } in
    let r₁ : Room = record r {
      players = insert player_id paid r.players;
      towers = insert tower_id tower r.towers;
    } in
    (
      append_tower_delta DeltaType.tower_rerolled player_id op_id tower (pos 0)
          (append_resource_delta player_id op_id r₁),
      success op_id tower_id (pos 0),
    )

unfoldable pub reroll_tower : ℤ → String → ℤ → Room → Room × OpResult
reroll_tower player_id op_id tower_id r = answer op_id r (do
  p ← or_refuse (find player_id r.players) ErrorCode.player_not_found
  t ← or_refuse (find tower_id r.towers) ErrorCode.tower_not_found
  refuse_if (not (eqb_ℤ t.owner_player_id player_id)) ErrorCode.tower_not_owned
  refuse_if (ltb_ℤ p.mana r.cfg.reroll_cost_mana) ErrorCode.not_enough_mana
  drawn ← or_refuse (next_tower_type p r) ErrorCode.no_tower_in_deck
  accept (retype_tower player_id op_id tower_id drawn.0 p t drawn.1))

-- From `delete(r.towers, materialTowerID)` on. The main tower stays in the map under its own id.
unfoldable pub fuse_towers :
    ℤ → String → ℤ → ℤ → ℤ → TowerState → TowerState → Room → Room × OpResult
unfolding append_tower_delta
fuse_towers player_id op_id main_id material_id type_id main_tower material r =
    let tower : TowerState = record main_tower {
      type_id = type_id;
      level = add32 main_tower.level (pos 1);
    } in
    let r₁ : Room = record r {
      towers = insert main_id tower (erase material_id r.towers);
      grid_tower = erase material.grid_id r.grid_tower;
    } in
    (
      append_tower_delta DeltaType.tower_merged player_id op_id tower material_id r₁,
      success op_id main_id (pos 0),
    )

unfoldable pub merge_tower : ℤ → String → ℤ → ℤ → Room → Room × OpResult
merge_tower player_id op_id main_id material_id r = answer op_id r (do
  p ← or_refuse (find player_id r.players) ErrorCode.player_not_found
  main_tower ← or_refuse (find main_id r.towers) ErrorCode.tower_not_found
  material ← or_refuse (find material_id r.towers) ErrorCode.tower_not_found
  refuse_if
      (not (eqb_ℤ main_tower.owner_player_id player_id)
        || not (eqb_ℤ material.owner_player_id player_id))
      ErrorCode.tower_not_owned
  refuse_if
      (not (eqb_ℤ main_tower.type_id material.type_id)
        || not (eqb_ℤ main_tower.level material.level)
        || eqb_ℤ main_id material_id)
      ErrorCode.tower_merge_mismatch
  refuse_if (leb_ℤ r.cfg.tower_max_level main_tower.level) ErrorCode.tower_max_level
  drawn ← or_refuse (next_tower_type p r) ErrorCode.no_tower_in_deck
  accept (fuse_towers player_id op_id main_id material_id drawn.0 main_tower material drawn.1))

-- `interval := cfg.MinerProduceInterval; if interval <= 0 { interval = 1 }`
abbrev pub produce_interval : Room → ℤ
produce_interval r =
    if leb_ℤ r.cfg.miner_produce_interval (pos 0) then pos 1 else r.cfg.miner_produce_interval

-- From `p.Gold -= cost` on.
unfoldable pub add_miner : ℤ → String → PlayerState → Room → Room × OpResult
unfolding alloc_miner_id append_resource_delta
add_miner player_id op_id p r =
    let (miner_id, r₁) = alloc_miner_id r in
    let miner : MinerState = record {
      miner_id = miner_id;
      owner_player_id = player_id;
      next_produce_tick = add64 r.server_tick (produce_interval r);
    } in
    let buyer : PlayerState = record p {
      gold = sub64 p.gold r.cfg.miner_cost_gold;
      miners = insert miner_id miner p.miners;
    } in
    let r₂ : Room = record r₁ { players = insert player_id buyer r₁.players } in
    (
      push_delta
          (record (blank_delta DeltaType.miner_bought r.server_tick) {
            player_id = player_id;
            op_id = op_id;
            miner_id = miner_id;
            gold = buyer.gold;
            mana = buyer.mana;
          })
          (append_resource_delta player_id op_id r₂),
      success op_id (pos 0) miner_id,
    )

unfoldable pub buy_miner : ℤ → String → Room → Room × OpResult
buy_miner player_id op_id r = answer op_id r (do
  p ← or_refuse (find player_id r.players) ErrorCode.player_not_found
  refuse_if (ltb_ℤ p.gold r.cfg.miner_cost_gold) ErrorCode.not_enough_gold
  accept (add_miner player_id op_id p r))
