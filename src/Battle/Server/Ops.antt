-- ===== src/Battle/Server/Ops.antt =====
-- src/service/battle/battleapp: a player operation, and the broadcast of its deltas.
use heli.Common.{
  not, ℤ, pos, leb_ℤ, Bool, true, false, String, List, [], ◌∷◌, ◌++◌, Option, none, some,
  if◌then◌else◌, int_eq, string_eq,
}
use text.Mathlib.Text.{◌==◌ as str_eq}
use heli.Common.Table.{Table, find, insert}
use heli.Battle.Room.{is_empty}
use heli.Battle.Commands.Keep.{Command, build, reroll, merge, buy, run_command}
use heli.Battle.Tick.{is_closed}
use heli.Battle.View.{flush_deltas}
use heli.Battle.Proto.{BattleDeltaNtf, deltas_to_proto}
use heli.Battle.Server.State.{
  Try, BattleRoom, Packet, BattleSvr, ServerCode, BattleOp, OpRsp, given, denied, build_op,
  reroll_op, merge_op, buy_op, other_op,
}
use heli.Battle.Server.Rooms.{error_text, put_room, match_player_session}

-- The switch of `applyBattleOp`.
unfoldable pub route : ℤ → String → BattleOp → Try Command
route player_id op_id (build_op none) = denied "build_tower is nil"
route player_id op_id (build_op (some grid_id)) = given (build player_id op_id grid_id)
route player_id op_id (reroll_op none) = denied "reroll_tower is nil"
route player_id op_id (reroll_op (some tower_id)) = given (reroll player_id op_id tower_id)
route player_id op_id (merge_op none) = denied "merge_tower is nil"
route player_id op_id (merge_op (some (main_id, material_id))) =
    given (merge player_id op_id main_id material_id)
route player_id op_id buy_op = given (buy player_id op_id)
route player_id op_id other_op = denied "unsupported battle op type"

abbrev pub reject : ServerCode → String → OpRsp
reject code message = record {
  code = code;
  message = message;
  server_tick = pos 0;
  tower_id = pos 0;
  miner_id = pos 0;
}

unfoldable pub apply_battle_op : BattleRoom → ℤ → String → BattleOp → BattleRoom × OpRsp
unfolding route
apply_battle_op b player_id op_id op =
    if str_eq op_id ""
    then (b, reject ServerCode.request_params "op id is empty")
    else if is_closed b.room.state
    then (b, reject ServerCode.failed "battle already finished")
    else elim (route player_id op_id op) [
      | denied message ↦ (b, reject ServerCode.request_params message)
      | given c ↦
          let (r, result) = run_command c b.room in
          if result.is_ok
          then (
            record b { room = r },
            record {
              code = ServerCode.success;
              message = "ok";
              server_tick = r.server_tick;
              tower_id = result.tower_id;
              miner_id = result.miner_id;
            },
          )
          else (record b { room = r }, reject ServerCode.failed (error_text result.code))
    ]

-- `sendProtoToSess` for every joined session.
unfoldable pub packets : BattleDeltaNtf → Table ℤ ℤ → List Packet
packets ntf [] = []
packets ntf ((player_id, sess_id) ∷ rest) =
    let others = packets ntf rest in
    if leb_ℤ sess_id (pos 0)
    then others
    else record { sess_id = sess_id; player_id = player_id; body = ntf } ∷ others

unfoldable pub broadcast_room_delta : BattleRoom → BattleRoom × List Packet
unfolding packets
broadcast_room_delta b =
    let (r, deltas) = flush_deltas b.room in
    if is_empty deltas
    then (record b { room = r }, [])
    else (record b { room = r }, packets (deltas_to_proto b.id r.server_tick deltas) b.joined_sess)

abbrev pub broadcast : String → BattleRoom → BattleSvr → BattleSvr
broadcast room_id b s =
    let (b', out) = broadcast_room_delta b in
    record s { rooms = insert room_id b' s.rooms; sent = s.sent ++ out }

abbrev pub is_success : ServerCode → Bool
is_success ServerCode.success = true
is_success _ = false

unfoldable pub req_battle_op :
    ℤ → ℤ → String → String → Option BattleOp → BattleSvr → BattleSvr × OpRsp
unfolding match_player_session apply_battle_op broadcast_room_delta
req_battle_op sess_id player_id room_id op_id none s = (s, reject ServerCode.request_params "")
req_battle_op sess_id player_id room_id op_id (some op) s = elim (find room_id s.rooms) [
  | none ↦ (s, reject ServerCode.request_params "room not found")
  | some b ↦
      if not (match_player_session player_id sess_id b)
      then (s, reject ServerCode.session_invalid "battle join required")
      else (let (b', out) = apply_battle_op b player_id op_id op in
          if is_success out.code
          then (broadcast room_id b' s, out)
          else (put_room room_id b' s, out))
]
