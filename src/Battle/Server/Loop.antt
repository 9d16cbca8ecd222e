-- ===== src/Battle/Server/Loop.antt =====
-- src/service/battle/battleapp: the ticks of a room and its settlement.
use heli.Common.{
  ◌||◌, pos, add64, Bool, true, false, String, List, [], ◌∷◌, ◌++◌, none, some, if◌then◌else◌,
  int_eq, string_eq,
}
use text.Mathlib.Text.{◌==◌ as str_eq}
use heli.Common.Table.{find, insert}
use heli.Battle.Room.{mark_settled}
use heli.Battle.Tick.{advance_to_tick, is_closed}
use heli.Battle.View.{build_settlement}
use heli.Battle.Server.State.{Try, BattleRoom, BattleSvr, given, denied}
use heli.Battle.Server.Ops.{broadcast_room_delta}

unfoldable pub advance_loop_tick : BattleRoom → BattleRoom
advance_loop_tick b = record b { room = advance_to_tick (add64 b.room.server_tick (pos 1)) b.room }

-- `finishBattleRoom`, up to the start of the goroutine.
unfoldable pub finish_battle_room : String → BattleRoom → BattleSvr → BattleSvr
finish_battle_room room_id b s = elim b.loop [
  | none ↦ s
  | some true ↦ s
  | some false ↦ record s {
    rooms = insert room_id (record b { loop = some true }) s.rooms;
    settling = room_id ∷ s.settling;
  }
]

unfoldable pub run_room_tick : String → BattleSvr → BattleSvr
unfolding advance_loop_tick finish_battle_room broadcast_room_delta
run_room_tick room_id s = elim (find room_id s.rooms) [
  | none ↦ s
  | some b ↦
      let b₁ = advance_loop_tick b in
      let (b₂, out) = broadcast_room_delta b₁ in
      let s₁ : BattleSvr = record s { rooms = insert room_id b₂ s.rooms; sent = s.sent ++ out } in
      if is_closed b₁.room.state then finish_battle_room room_id b₂ s₁ else s₁
]

-- `list` without its first entry of a name.
unfoldable pub take_out : String → List String → List String
take_out x [] = []
take_out x (y ∷ ys) = let rest = take_out x ys in if str_eq y x then ys else y ∷ rest

unfoldable pub is_in : String → List String → Bool
is_in x [] = false
is_in x (y ∷ ys) = str_eq y x || is_in x ys

-- `stopRoomLoop`
abbrev pub stop_room_loop : BattleRoom → BattleRoom
stop_room_loop b = record b { loop = none }

-- The goroutine of `finishBattleRoom` up to the request to logic.
unfoldable pub collect_settlement : String → BattleSvr → BattleSvr
unfolding is_in take_out
collect_settlement room_id s = elim (find room_id s.rooms) [
  | none ↦ s
  | some b ↦
      if is_in room_id s.settling
      then (let (r, first) = mark_settled b.room in
          let settlement = build_settlement b.id r in
          if first
          then record s {
            rooms =
                insert room_id (record b { room = r; last_settlement = some settlement }) s.rooms;
            settling = take_out room_id s.settling;
            awaiting = room_id ∷ s.awaiting;
            reports = settlement ∷ s.reports;
          }
          else record s {
            rooms = insert room_id (stop_room_loop (record b { room = r })) s.rooms;
            settling = take_out room_id s.settling;
          })
      else s
]

unfoldable pub mark_settle_ack : Bool → String → BattleRoom → BattleRoom
mark_settle_ack acked message b = record b {
  settle_acked = acked;
  settle_ack_message = message;
  last_settlement_err = if acked then "" else message;
}

unfoldable pub settle_answer : Try (Bool × String) → BattleRoom → BattleRoom
unfolding mark_settle_ack
settle_answer (denied err) b = mark_settle_ack false err b
settle_answer (given (accepted, message)) b = mark_settle_ack accepted message b

-- The rest of the goroutine, when logic has answered or the request has failed.
unfoldable pub answer_settlement : String → Try (Bool × String) → BattleSvr → BattleSvr
unfolding settle_answer
answer_settlement room_id answer s = elim (find room_id s.rooms) [
  | none ↦ s
  | some b ↦
      if is_in room_id s.awaiting
      then record s {
        rooms = insert room_id (stop_room_loop (settle_answer answer b)) s.rooms;
        awaiting = take_out room_id s.awaiting;
      }
      else s
]
