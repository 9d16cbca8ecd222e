-- ===== src/Battle/Server/Refused.antt =====
-- src/service/battle/battleapp: an operation that is refused changes nothing.
use heli.Common.{
  ℤ, false, String, Option, none, some, ◌≡◌, ◌≢◌, refl, ap, inl, inr, arith, int_eq, string_eq,
  Bool-cases, Option-cases,
}
use heli.Common.Table.{Table, find}
use heli.Battle.Server.State.{BattleRoom, BattleSvr, BattleOp, ServerCode, Try-cases}
use heli.Battle.Server.Rooms.{match_player_session}
use heli.Battle.Server.Ops.{is_success, apply_battle_op, req_battle_op, route}
use heli.Common.Table.{insert-found}
use heli.Battle.Commands.Granted.{run_command_refused}

pub apply-refused :
    (b : BattleRoom) (player_id : ℤ) (op_id : String) (op : BattleOp)
    → is_success (apply_battle_op b player_id op_id op).1.code ≡ false
    → (apply_battle_op b player_id op_id op).0 ≡ b
unfolding apply_battle_op
apply-refused b player_id op_id op h = elim (Try-cases (route player_id op_id op)) [
  | inl (message, e) ↦ ground arith
  | inr (c, e) ↦ let kept = run_command_refused c b.room in ground arith
]

-- An operation that is not answered with success leaves the whole server as it was, and nothing is
-- sent to anybody.
pub operate_refused :
    (sess_id player_id : ℤ) (room_id op_id : String) (op : Option BattleOp) (s : BattleSvr)
    → (req_battle_op sess_id player_id room_id op_id op s).1.code ≢ ServerCode.success
    → (req_battle_op sess_id player_id room_id op_id op s).0 ≡ s
unfolding req_battle_op
operate_refused sess_id player_id room_id op_id none s h = refl
operate_refused sess_id player_id room_id op_id (some op) s h =
    elim (Option-cases (find room_id s.rooms)) [
      | inl missing ↦ rw (missing, req_battle_op) refl
      | inr (b, found) ↦ elim (Bool-cases (match_player_session player_id sess_id b)) [
        | inr other ↦ rw (found, other, req_battle_op) refl
        | inl bound ↦ elim (Bool-cases (is_success (apply_battle_op b player_id op_id op).1.code)) [
          | inl good ↦ absurd (ground arith)
          | inr bad ↦
              rw (found, bound, bad, req_battle_op)
                (rw (apply-refused b player_id op_id op bad) (
                  ap (λ (rooms : Table String BattleRoom). record s { rooms = rooms })
                    (insert-found room_id b s.rooms found)))
        ]
      ]
    ]
