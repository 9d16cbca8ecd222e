-- ===== src/Battle/Server/Rooms.antt =====
-- src/service/battle/battleapp: making a room, and joining one.
use heli.Common.{
  ◌||◌, ◌&&◌, not, ℤ, pos, eqb_ℤ, Bool, false, String, List, [], ◌∷◌, Option, none, some,
  if◌then◌else◌, int_eq, string_eq,
}
use text.Mathlib.Text.{starts_with, ◌==◌ as str_eq}
use heli.Common.Table.{Table, find, insert}
use heli.Battle.Types.{Room, RoomConfig, ErrorCode}
use heli.Battle.Results.{Result, accept, refuse, ◌>>=◌}
use heli.Battle.Room.{new_room, add_player, is_empty, contains, deck_or}
use heli.Battle.Server.State.{Try, BattleRoom, BattleSvr, ServerCode, given, denied}
use heli.Battle.Server.Token.{token_prefix, build_battle_token}

abbrev pub error_text : ErrorCode → String
error_text ErrorCode.ok = "OK"
error_text ErrorCode.player_exists = "PLAYER_EXISTS"
error_text ErrorCode.player_not_found = "PLAYER_NOT_FOUND"
error_text ErrorCode.no_tower_in_deck = "NO_TOWER_IN_DECK"
error_text ErrorCode.not_enough_gold = "NOT_ENOUGH_GOLD"
error_text ErrorCode.not_enough_mana = "NOT_ENOUGH_MANA"
error_text ErrorCode.grid_not_in_build_area = "GRID_NOT_IN_BUILD_AREA"
error_text ErrorCode.grid_occupied = "GRID_OCCUPIED"
error_text ErrorCode.tower_not_found = "TOWER_NOT_FOUND"
error_text ErrorCode.tower_not_owned = "TOWER_NOT_OWNED"
error_text ErrorCode.tower_merge_mismatch = "TOWER_MERGE_MISMATCH"
error_text ErrorCode.tower_max_level = "TOWER_MAX_LEVEL"

-- The configuration that `createRoom` passes.
abbrev pub p0_config : List ℤ → RoomConfig
p0_config tower_deck = record {
  initial_gold = pos 100;
  initial_mana = pos 0;
  build_cost_gold = pos 10;
  reroll_cost_mana = pos 1;
  miner_cost_gold = pos 20;
  miner_produce_mana = pos 1;
  miner_produce_interval = pos 3;
  tower_max_level = pos 5;
  default_tower_deck = deck_or tower_deck (pos 101 ∷ []);
  random_tower_types = [];
  build_grids_by_player = [];
  base_hp = pos 3;
  monster_damage = pos 1;
  wave_timeout_tick = pos 600;
  monster_waves = none;
}

unfoldable pub add_players : List ℤ → List ℤ → Room → Result Room
add_players [] deck r = accept r
add_players (id ∷ ids) deck r = add_player id deck r >>= add_players ids deck

unfoldable pub create_room :
    String
    → List ℤ
    → List ℤ
    → String
    → Table String BattleRoom
    → Try (BattleRoom × Table String BattleRoom)
unfolding add_players
create_room room_id player_ids tower_deck battle_token rooms =
    if str_eq room_id ""
    then denied "room id is empty"
    else if is_empty player_ids
    then denied "player ids is empty"
    else elim (find room_id rooms) [
      | some b ↦ denied "room already exists"
      | none ↦ elim (add_players player_ids tower_deck (new_room (p0_config tower_deck))) [
        | refuse code ↦ denied (error_text code)
        | accept r ↦
            let ret : BattleRoom = record {
              id = room_id;
              player_ids = player_ids;
              room = r;
              allowed_token = battle_token;
              joined_sess = [];
              loop = none;
              settle_acked = false;
              settle_ack_message = "";
              last_settlement = none;
              last_settlement_err = "";
            } in
            given (ret, insert room_id ret rooms)
      ]
    ]

-- `startRoomLoop`
unfoldable pub start_room_loop : BattleRoom → BattleRoom
start_room_loop b = elim b.loop [ none ↦ record b { loop = some false } | some d ↦ b ]

-- `*room = b`
abbrev pub put_room : String → BattleRoom → BattleSvr → BattleSvr
put_room room_id b s = record s { rooms = insert room_id b s.rooms }

-- `rpcCreateBattleRoom` answers with the token, or with an error.
unfoldable pub rpc_create_battle_room :
    String → List ℤ → List ℤ → BattleSvr → BattleSvr × Try String
unfolding create_room start_room_loop
rpc_create_battle_room room_id player_ids tower_deck s =
    let battle_token = build_battle_token room_id player_ids in
    elim (create_room room_id player_ids tower_deck battle_token s.rooms) [
      | denied message ↦ (s, denied message)
      | given (b, rooms) ↦
          (put_room room_id (start_room_loop b) (record s { rooms = rooms }), given battle_token)
    ]

-- `none` is a nil error.
unfoldable pub verify_battle_token : Option BattleRoom → ℤ → String → String → Option String
verify_battle_token none player_id room_id token = some "room not found"
verify_battle_token (some b) player_id room_id token =
    if str_eq room_id "" || not (str_eq b.id room_id)
    then some "room id mismatch"
    else if not (contains player_id b.player_ids)
    then some "player not in room"
    else if str_eq token ""
    then some "battle token is empty"
    else if not (str_eq b.allowed_token "") && not (str_eq b.allowed_token token)
    then some "battle token invalid"
    else if not (starts_with token (token_prefix room_id))
    then some "battle token malformed"
    else none

abbrev pub bind_player_session : ℤ → ℤ → BattleRoom → BattleRoom
bind_player_session player_id sess_id b = record b {
  joined_sess = insert player_id sess_id b.joined_sess;
}

unfoldable pub match_player_session : ℤ → ℤ → BattleRoom → Bool
match_player_session player_id sess_id b = elim (find player_id b.joined_sess) [
  | none ↦ false
  | some bound ↦ eqb_ℤ bound sess_id
]

-- `reqBattleJoin`: the code and the message of the response.
unfoldable pub req_battle_join :
    ℤ → ℤ → String → String → BattleSvr → BattleSvr × ServerCode × String
unfolding verify_battle_token
req_battle_join sess_id player_id room_id token s = elim (find room_id s.rooms) [
  | none ↦ (s, ServerCode.request_params, "room not found")
  | some b ↦ elim (verify_battle_token (some b) player_id room_id token) [
    | some message ↦ (s, ServerCode.request_params, message)
    | none ↦
        (put_room room_id (bind_player_session player_id sess_id b) s, ServerCode.success, "ok")
  ]
]
