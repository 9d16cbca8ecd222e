-- ===== src/Battle/Server/Deltas.antt =====
-- src/service/battle/battleapp: no delta waits between two events.
use heli.Common.{
  ℤ, Bool, true, false, String, List, [], ◌∷◌, Option, none, some, ◌≡◌, refl, sym, ◌∙◌, ap, ◌++◌,
  append_nil, append_assoc, inl, inr, arith, int_eq, string_eq, Bool-cases, Option-cases,
}
use heli.Common.Table.{Table, find, insert, find-insert_inv}
use heli.Battle.Types.{Room}
use heli.Battle.Room.{mark_settled}
use heli.Battle.Tick.{is_closed}
use heli.Battle.View.{flush_deltas}
use heli.Battle.Server.State.{BattleRoom, BattleSvr, BattleOp, Try, Try-cases, given, denied}
use heli.Battle.Server.Rooms.{
  verify_battle_token, match_player_session, create_room, start_room_loop, rpc_create_battle_room,
  bind_player_session, req_battle_join,
}
use heli.Battle.Server.Ops.{is_success, apply_battle_op, broadcast_room_delta, req_battle_op}
use heli.Battle.Server.Loop.{
  advance_loop_tick, finish_battle_room, run_room_tick, collect_settlement, answer_settlement,
  settle_answer, mark_settle_ack, is_in,
}
use heli.Battle.Server.Token.{build_battle_token}
use heli.Battle.Server.Events.{
  ServerEvent, creates, joins, operates, ticks, collects, answers, serve, serve_all,
}
use heli.Battle.Results.{Result-cases, accept}
use heli.Battle.Room.{new_room, add_player}
use heli.Battle.Server.Rooms.{add_players, p0_config}
use heli.Battle.Server.Refused.{apply-refused}
use heli.Battle.Server.News.{Quiet, changed, news_of, serve-sent}
use heli.Battle.Server.State.{Packet}

Quiet-insert :
    (k : String) (c : BattleRoom) (rooms : Table String BattleRoom)
    → Quiet rooms
    → c.room.deltas ≡ []
    → Quiet (insert k c rooms)
Quiet-insert k c rooms q h j d found = elim (find-insert_inv k j c d rooms found) [
  | inl (same, new) ↦ ground arith
  | inr (other, old) ↦ q j d old
]

add_player-deltas :
    (id : ℤ) (deck : List ℤ) (r s : Room) → add_player id deck r ≡ accept s → s.deltas ≡ r.deltas
unfolding add_player
add_player-deltas id deck r s h = ground arith

add_players-deltas :
    (ids deck : List ℤ) (r s : Room) → add_players ids deck r ≡ accept s → s.deltas ≡ r.deltas
unfolding add_players
add_players-deltas [] deck r s h = ground arith
add_players-deltas (id ∷ ids) deck r s h = elim (Result-cases (add_player id deck r)) [
  | inl (code, e) ↦ absurd (ground arith)
  | inr (t, e) ↦ add_players-deltas ids deck t s (ground arith) ∙ add_player-deltas id deck r t e
]

create_room-deltas :
    (k : String) (player_ids deck : List ℤ) (token : String) (rooms : Table String BattleRoom)
    (b : BattleRoom) (rooms' : Table String BattleRoom)
    → create_room k player_ids deck token rooms ≡ given (b, rooms')
    → (b.room.deltas ≡ []) × (rooms' ≡ insert k b rooms)
unfolding create_room new_room
create_room-deltas k player_ids deck token rooms b rooms' h =
    elim (Result-cases (add_players player_ids deck (new_room (p0_config deck)))) [
      | inl (code, e) ↦ absurd (ground arith)
      | inr (r, e) ↦
          let same = add_players-deltas player_ids deck (new_room (p0_config deck)) r e in
          ground arith
    ]

start_room_loop-room : (b : BattleRoom) → (start_room_loop b).room ≡ b.room
unfolding start_room_loop
start_room_loop-room b = ground arith

create-Quiet :
    (k : String) (player_ids deck : List ℤ) (s : BattleSvr)
    → Quiet s.rooms
    → Quiet (rpc_create_battle_room k player_ids deck s).0.rooms
unfolding rpc_create_battle_room
create-Quiet k player_ids deck s q =
    elim (Try-cases (create_room k player_ids deck (build_battle_token k player_ids) s.rooms)) [
      | inl (message, e) ↦ rw (e, rpc_create_battle_room) q
      | inr ((b, rooms), e) ↦
          let (empty, stored) = create_room-deltas k player_ids deck _ s.rooms b rooms e in
          rw (e, rpc_create_battle_room, stored)
            (Quiet-insert k (start_room_loop b) (insert k b s.rooms)
              (Quiet-insert k b s.rooms q empty)
              (ap (λ (r : Room). r.deltas) (start_room_loop-room b) ∙ empty))
    ]

join-Quiet :
    (sess_id player_id : ℤ) (k token : String) (s : BattleSvr)
    → Quiet s.rooms
    → Quiet (req_battle_join sess_id player_id k token s).0.rooms
unfolding req_battle_join
join-Quiet sess_id player_id k token s q = elim (Option-cases (find k s.rooms)) [
  | inl missing ↦ rw (missing, req_battle_join) q
  | inr (b, found) ↦ elim (Option-cases (verify_battle_token (some b) player_id k token)) [
    | inl good ↦
        rw (found, good, req_battle_join)
          (Quiet-insert k (bind_player_session player_id sess_id b) s.rooms q (q k b found))
    | inr (message, bad) ↦ rw (found, bad, req_battle_join) q
  ]
]

broadcast-Quiet : (b : BattleRoom) → (broadcast_room_delta b).0.room.deltas ≡ []
unfolding broadcast_room_delta flush_deltas
broadcast-Quiet b = ground arith

operate-Quiet :
    (sess_id player_id : ℤ) (k op_id : String) (op : Option BattleOp) (s : BattleSvr)
    → Quiet s.rooms
    → Quiet (req_battle_op sess_id player_id k op_id op s).0.rooms
unfolding req_battle_op
operate-Quiet sess_id player_id k op_id none s q = q
operate-Quiet sess_id player_id k op_id (some op) s q = elim (Option-cases (find k s.rooms)) [
  | inl missing ↦ rw (missing, req_battle_op) q
  | inr (b, found) ↦ elim (Bool-cases (match_player_session player_id sess_id b)) [
    | inr other ↦ rw (found, other, req_battle_op) q
    | inl bound ↦ elim (Bool-cases (is_success (apply_battle_op b player_id op_id op).1.code)) [
      | inl good ↦
          rw (found, bound, good, req_battle_op)
            (Quiet-insert k _ s.rooms q (broadcast-Quiet (apply_battle_op b player_id op_id op).0))
      | inr bad ↦
          rw (found, bound, bad, req_battle_op)
            (Quiet-insert k _ s.rooms q (
              ap (λ (c : BattleRoom). c.room.deltas) (apply-refused b player_id op_id op bad)
              ∙ q k b found))
    ]
  ]
]

finish-Quiet :
    (k : String) (b : BattleRoom) (s : BattleSvr)
    → Quiet s.rooms
    → b.room.deltas ≡ []
    → Quiet (finish_battle_room k b s).rooms
unfolding finish_battle_room
finish-Quiet k b s q h = elim (Option-cases b.loop) [
  | inl gone ↦ rw (gone, finish_battle_room) q
  | inr (true, once) ↦ rw (once, finish_battle_room) q
  | inr (false, first) ↦
      rw (first, finish_battle_room) (Quiet-insert k (record b { loop = some true }) s.rooms q h)
]

tick-Quiet : (k : String) (s : BattleSvr) → Quiet s.rooms → Quiet (run_room_tick k s).rooms
unfolding run_room_tick
tick-Quiet k s q = elim (Option-cases (find k s.rooms)) [
  | inl missing ↦ rw (missing, run_room_tick) q
  | inr (b, found) ↦
      let b₁ = advance_loop_tick b in
      let b₂ = (broadcast_room_delta b₁).0 in
      let empty = broadcast-Quiet b₁ in
      let q₁ = Quiet-insert k b₂ s.rooms q empty in
      elim (Bool-cases (is_closed b₁.room.state)) [
        | inl closed ↦ rw (found, closed, run_room_tick) (finish-Quiet k b₂ _ q₁ empty)
        | inr going ↦ rw (found, going, run_room_tick) q₁
      ]
]

settle-deltas : (r : Room) → (mark_settled r).0.deltas ≡ r.deltas
unfolding mark_settled
settle-deltas r = ground arith

collect-Quiet : (k : String) (s : BattleSvr) → Quiet s.rooms → Quiet (collect_settlement k s).rooms
unfolding collect_settlement
collect-Quiet k s q = elim (Option-cases (find k s.rooms)) [
  | inl missing ↦ rw (missing, collect_settlement) q
  | inr (b, found) ↦
      let empty = settle-deltas b.room ∙ q k b found in
      elim (Bool-cases (is_in k s.settling)) [
        | inr idle ↦ rw (found, idle, collect_settlement) q
        | inl waiting ↦ elim (Bool-cases (mark_settled b.room).1) [
          | inl first ↦
              rw (found, waiting, first, collect_settlement) (Quiet-insert k _ s.rooms q empty)
          | inr again ↦
              rw (found, waiting, again, collect_settlement) (Quiet-insert k _ s.rooms q empty)
        ]
      ]
]

settle_answer-room :
    (answer : Try (Bool × String)) (b : BattleRoom) → (settle_answer answer b).room ≡ b.room
unfolding settle_answer mark_settle_ack
settle_answer-room (given (accepted, message)) b = refl
settle_answer-room (denied err) b = refl

answer-Quiet :
    (k : String) (answer : Try (Bool × String)) (s : BattleSvr)
    → Quiet s.rooms
    → Quiet (answer_settlement k answer s).rooms
unfolding answer_settlement
answer-Quiet k answer s q = elim (Option-cases (find k s.rooms)) [
  | inl missing ↦ rw (missing, answer_settlement) q
  | inr (b, found) ↦ elim (Bool-cases (is_in k s.awaiting)) [
    | inl waiting ↦
        rw (found, waiting, answer_settlement)
          (Quiet-insert k _ s.rooms q
            (ap (λ (r : Room). r.deltas) (settle_answer-room answer b) ∙ q k b found))
    | inr idle ↦ rw (found, idle, answer_settlement) q
  ]
]

serve-Quiet : (e : ServerEvent) (s : BattleSvr) → Quiet s.rooms → Quiet (serve e s).rooms
unfolding serve
serve-Quiet (creates room_id player_ids tower_deck) s q =
    create-Quiet room_id player_ids tower_deck s q
serve-Quiet (joins sess_id player_id room_id token) s q =
    join-Quiet sess_id player_id room_id token s q
serve-Quiet (operates sess_id player_id room_id op_id op) s q =
    operate-Quiet sess_id player_id room_id op_id op s q
serve-Quiet (ticks room_id) s q = tick-Quiet room_id s q
serve-Quiet (collects room_id) s q = collect-Quiet room_id s q
serve-Quiet (answers room_id answer) s q = answer-Quiet room_id answer s q

-- The packets for every event, one after the other.
abbrev pub all_news : List ServerEvent → BattleSvr → List Packet
all_news [] s = []
all_news (e ∷ es) s = news_of (changed e s) ++ all_news es (serve e s)

-- No delta is left behind or lost. If no room of the server holds a delta, then none does after any sequence of
-- events; and what the events have added to the packets sent is, for each tick of a room and each operation of a
-- player with its session that leaves deltas in the room, one packet with all of them to each player of the
-- room with a positive session, in the order of the events, and nothing else.
pub serve_all-Quiet :
    (es : List ServerEvent) (s : BattleSvr)
    → Quiet s.rooms
    → Quiet (serve_all es s).rooms × ((serve_all es s).sent ≡ s.sent ++ all_news es s)
unfolding serve_all
serve_all-Quiet [] s q = (q, sym (append_nil s.sent))
serve_all-Quiet (e ∷ es) s q =
    let (quiet, later) = serve_all-Quiet es (serve e s) (serve-Quiet e s q) in
    let rest = all_news es (serve e s) in
    (
      quiet,
      later
          ∙ ap (λ t. t ++ rest) (serve-sent e s q)
          ∙ append_assoc s.sent (news_of (changed e s)) rest,
    )
