-- ===== src/Battle/ServerTests.antt =====
-- The theorems on src/service/battle/battleapp at a concrete server.
use heli.Common.{
  ◌≤◌, length, add64, sub64, wrap64, ◌+ℤ◌, ◌-ℤ◌, pos, List, [], ◌∷◌, ◌++◌, some, ◌≡◌, ◌≢◌, refl,
  true, arith, All, string_eq, int_eq, eqb_ℤ,
}
use heli.Common.Table.{find, insert}
use heli.Battle.Room.{add_player, new_room, contains, can_build_on, next_tower_type}
use heli.Battle.Commands.{build_tower, place_tower}
use heli.Battle.Commands.Keep.{run_command}
use heli.Battle.View.{flush_deltas}
use heli.Battle.Server.State.{build_op, ServerCode, given, denied}
use heli.Battle.Server.Token.{build_battle_token, join_comma}
use heli.Common.Decimal.{show_int, digits}
use heli.Battle.Server.Rooms.{rpc_create_battle_room, create_room, add_players, req_battle_join}
use heli.Battle.Server.Ops.{req_battle_op}
use heli.Battle.Server.Events.{
  ServerEvent, creates, joins, operates, ticks, collects, answers, serve_all, new_battle_svr,
}
use heli.Battle.Server.Sessions.{Joined, create_then_join}
use heli.Battle.Server.Moves.{reports_of, Final}
use heli.Battle.Server.Reports.{reported_once, reports-Final}
use heli.Battle.Server.Refused.{operate_refused}
use heli.Battle.Server.Deltas.{all_news, serve_all-Quiet}
use heli.Battle.Server.News.{Quiet}

abbrev events : List ServerEvent
events =
    creates "r" (pos 7 ∷ pos 8 ∷ []) []
    ∷ joins (pos 70) (pos 7) "r" "battle:r:7,8"
    ∷ operates (pos 70) (pos 7) "r" "a" (some (build_op (some (pos 1))))
    ∷ ticks "r"
    ∷ collects "r"
    ∷ answers "r" (denied "timeout")
    ∷ []

reported_once_example : reports_of "r" (serve_all events new_battle_svr).reports ≤ 1
reported_once_example = reported_once events "r"

reports-Final_example : let s = serve_all events new_battle_svr in All (Final s.rooms) s.reports
reports-Final_example = reports-Final events

empty-Quiet : Quiet new_battle_svr.rooms
unfolding new_battle_svr find
empty-Quiet k b h = ground arith

serve_all-Quiet_example :
    Quiet (serve_all events new_battle_svr).rooms
    × ((serve_all events new_battle_svr).sent
        ≡ new_battle_svr.sent ++ all_news events new_battle_svr)
serve_all-Quiet_example = serve_all-Quiet events new_battle_svr empty-Quiet

-- The token of a room of two players, which the server hands out.
granted :
    (rpc_create_battle_room "r" (pos 7 ∷ pos 8 ∷ []) [] new_battle_svr).1 ≡ given "battle:r:7,8"
unfolding rpc_create_battle_room create_room add_players add_player new_room find insert
    new_battle_svr eqb_ℤ build_battle_token show_int digits join_comma
granted = refl

seven_is_in : contains (pos 7) (pos 7 ∷ pos 8 ∷ []) ≡ true
unfolding contains eqb_ℤ
seven_is_in = refl

create_then_join_example :
    let s' = (rpc_create_battle_room "r" (pos 7 ∷ pos 8 ∷ []) [] new_battle_svr).0 in
    let joined = req_battle_join (pos 70) (pos 7) "r" "battle:r:7,8" s' in
    (joined.1 ≡ ServerCode.success) × Joined (pos 70) (pos 7) "r" joined.0
create_then_join_example =
    create_then_join "r" (pos 7 ∷ pos 8 ∷ []) [] new_battle_svr "battle:r:7,8" (pos 70) (pos 7)
      granted seven_is_in

unjoined_code :
    (req_battle_op (pos 70) (pos 7) "r" "a" (some (build_op (some (pos 1)))) new_battle_svr).1.code
    ≢ ServerCode.success
unfolding req_battle_op find new_battle_svr
unjoined_code e = ground arith

operate_refused_example :
    (req_battle_op (pos 70) (pos 7) "r" "a" (some (build_op (some (pos 1)))) new_battle_svr).0
    ≡ new_battle_svr
operate_refused_example =
    operate_refused (pos 70) (pos 7) "r" "a" (some (build_op (some (pos 1)))) new_battle_svr
      unjoined_code

-- A build of the seventh player is told to the seventh, the only one online.
abbrev opening : List ServerEvent
opening =
    creates "r" (pos 7 ∷ pos 8 ∷ []) []
    ∷ joins (pos 70) (pos 7) "r" "battle:r:7,8"
    ∷ operates (pos 70) (pos 7) "r" "a" (some (build_op (some (pos 1))))
    ∷ []

opening_told : length (serve_all opening new_battle_svr).sent ≡ 1
unfolding serve_all new_battle_svr find insert eqb_ℤ req_battle_op req_battle_join
    rpc_create_battle_room create_room add_players add_player new_room show_int digits join_comma
    build_battle_token contains run_command build_tower can_build_on next_tower_type place_tower
    add64 sub64 wrap64 ◌+ℤ◌ ◌-ℤ◌ flush_deltas
opening_told = refl
