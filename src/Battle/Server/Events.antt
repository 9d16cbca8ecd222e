-- ===== src/Battle/Server/Events.antt =====
-- src/service/battle/battleapp: any sequence of events.
use heli.Common.{ℤ, Bool, String, List, [], ◌∷◌, Option, int_eq, string_eq}
use heli.Battle.Server.State.{Try, BattleSvr, BattleOp}
use heli.Battle.Server.Rooms.{rpc_create_battle_room, req_battle_join}
use heli.Battle.Server.Ops.{req_battle_op}
use heli.Battle.Server.Loop.{run_room_tick, collect_settlement, answer_settlement}

-- What can happen to a server, in any order.
pub data ServerEvent : Type 0 where
  creates : String → List ℤ → List ℤ → ServerEvent
  joins : ℤ → ℤ → String → String → ServerEvent
  operates : ℤ → ℤ → String → String → Option BattleOp → ServerEvent
  ticks collects : String → ServerEvent
  answers : String → Try (Bool × String) → ServerEvent

unfoldable pub serve : ServerEvent → BattleSvr → BattleSvr
serve (creates room_id player_ids tower_deck) s =
    (rpc_create_battle_room room_id player_ids tower_deck s).0
serve (joins sess_id player_id room_id token) s =
    (req_battle_join sess_id player_id room_id token s).0
serve (operates sess_id player_id room_id op_id op) s =
    (req_battle_op sess_id player_id room_id op_id op s).0
serve (ticks room_id) s = run_room_tick room_id s
serve (collects room_id) s = collect_settlement room_id s
serve (answers room_id answer) s = answer_settlement room_id answer s

unfoldable pub serve_all : List ServerEvent → BattleSvr → BattleSvr
unfolding serve
serve_all [] s = s
serve_all (e ∷ es) s = serve_all es (serve e s)

unfoldable pub new_battle_svr : BattleSvr
new_battle_svr = record { rooms = []; sent = []; settling = []; awaiting = []; reports = [] }
