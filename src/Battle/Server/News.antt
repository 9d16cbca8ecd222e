-- ===== src/Battle/Server/News.antt =====
-- src/service/battle/battleapp: what a server sends for each event. The packets are described by the players that
-- are online and the deltas that the event leaves in its room, not by the code that flushes them.
use heli.Common.{
  ◌++◌, append_nil, ℤ, pos, leb_ℤ, Bool, true, false, String, List, [], ◌∷◌, Option, none, some,
  ◌≡◌, refl, sym, ap, ◌∙◌, inl, inr, if◌then◌else◌, int_eq, string_eq, map, Bool-cases,
  Option-cases,
}
use heli.Common.Table.{Table, find}
use heli.Battle.Room.{is_empty, mark_settled}
use heli.Battle.Tick.{is_closed}
use heli.Battle.View.{flush_deltas}
use heli.Battle.Proto.{BattleDeltaNtf, deltas_to_proto}
use heli.Battle.Server.State.{BattleRoom, Packet, BattleSvr, BattleOp, Try, Try-cases}
use heli.Battle.Server.Rooms.{
  verify_battle_token, match_player_session, create_room, rpc_create_battle_room, req_battle_join,
}
use heli.Battle.Server.Ops.{
  is_success, apply_battle_op, broadcast_room_delta, packets, req_battle_op,
}
use heli.Battle.Server.Loop.{
  advance_loop_tick, finish_battle_room, run_room_tick, collect_settlement, answer_settlement,
  is_in,
}
use heli.Battle.Server.Token.{build_battle_token}
use heli.Battle.Server.Events.{
  ServerEvent, creates, joins, operates, ticks, collects, answers, serve,
}
use heli.Battle.Server.Refused.{apply-refused}

-- No room holds a delta.
abbrev pub Quiet : Table String BattleRoom → Type 0
Quiet rooms = (k : String) (b : BattleRoom) → find k rooms ≡ some b → b.room.deltas ≡ []

-- The players whose session is positive, each with its session.
abbrev pub online : Table ℤ ℤ → Table ℤ ℤ
online [] = []
online ((player_id, sess_id) ∷ rest) =
    if leb_ℤ sess_id (pos 0) then online rest else (player_id, sess_id) ∷ online rest

-- One packet to each player online, with all the deltas of the room, if there are any.
abbrev pub news : BattleRoom → List Packet
news b =
    let ntf = deltas_to_proto b.id b.room.server_tick b.room.deltas in
    let tell : ℤ × ℤ → Packet = λ p. record { sess_id = p.1; player_id = p.0; body = ntf } in
    if is_empty b.room.deltas then [] else map tell (online b.joined_sess)

-- The room in which an event may leave deltas, with them: that of a tick, and that of an operation of a player
-- with its session.
abbrev pub changed : ServerEvent → BattleSvr → Option BattleRoom
changed (ticks k) s = elim (find k s.rooms) [ none ↦ none | some b ↦ some (advance_loop_tick b) ]
changed (operates sess_id player_id k op_id none) s = none
changed (operates sess_id player_id k op_id (some op)) s = elim (find k s.rooms) [
  | none ↦ none
  | some b ↦
      if match_player_session player_id sess_id b
      then some (apply_battle_op b player_id op_id op).0
      else none
]
changed _ s = none

abbrev pub news_of : Option BattleRoom → List Packet
news_of none = []
news_of (some b) = news b

packets-online :
    (ntf : BattleDeltaNtf) (m : Table ℤ ℤ)
    → packets ntf m
      ≡ map (λ (p : ℤ × ℤ). record { sess_id = p.1; player_id = p.0; body = ntf }) (online m)
unfolding packets
packets-online ntf [] = refl
packets-online ntf ((player_id, sess_id) ∷ rest) = elim (Bool-cases (leb_ℤ sess_id (pos 0))) [
  | inl offline ↦ rw offline (packets-online ntf rest)
  | inr there ↦ rw there (
      ap (λ t. record { sess_id = sess_id; player_id = player_id; body = ntf } ∷ t)
        (packets-online ntf rest))
]

broadcast-news : (b : BattleRoom) → (broadcast_room_delta b).1 ≡ news b
unfolding broadcast_room_delta flush_deltas
broadcast-news b = elim (Bool-cases (is_empty b.room.deltas)) [
  | inl nothing ↦ rw nothing refl
  | inr something ↦
      rw something
        (packets-online (deltas_to_proto b.id b.room.server_tick b.room.deltas) b.joined_sess)
]

news-none : (b : BattleRoom) → b.room.deltas ≡ [] → news b ≡ []
news-none b h = rw h refl

create-sent :
    (k : String) (player_ids deck : List ℤ) (s : BattleSvr)
    → (rpc_create_battle_room k player_ids deck s).0.sent ≡ s.sent
unfolding rpc_create_battle_room
create-sent k player_ids deck s =
    elim (Try-cases (create_room k player_ids deck (build_battle_token k player_ids) s.rooms)) [
      | inl (message, e) ↦ rw (e, rpc_create_battle_room) refl
      | inr ((b, rooms), e) ↦ rw (e, rpc_create_battle_room) refl
    ]

join-sent :
    (sess_id player_id : ℤ) (k token : String) (s : BattleSvr)
    → (req_battle_join sess_id player_id k token s).0.sent ≡ s.sent
unfolding req_battle_join
join-sent sess_id player_id k token s = elim (Option-cases (find k s.rooms)) [
  | inl missing ↦ rw (missing, req_battle_join) refl
  | inr (b, found) ↦ elim (Option-cases (verify_battle_token (some b) player_id k token)) [
    | inl good ↦ rw (found, good, req_battle_join) refl
    | inr (message, bad) ↦ rw (found, bad, req_battle_join) refl
  ]
]

operate-sent :
    (sess_id player_id : ℤ) (k op_id : String) (op : Option BattleOp) (s : BattleSvr)
    → Quiet s.rooms
    → (req_battle_op sess_id player_id k op_id op s).0.sent
      ≡ s.sent ++ news_of (changed (operates sess_id player_id k op_id op) s)
unfolding req_battle_op
operate-sent sess_id player_id k op_id none s q = sym (append_nil s.sent)
operate-sent sess_id player_id k op_id (some op) s q = elim (Option-cases (find k s.rooms)) [
  | inl missing ↦ rw (missing, changed, req_battle_op) (sym (append_nil s.sent))
  | inr (b, found) ↦ elim (Bool-cases (match_player_session player_id sess_id b)) [
    | inr other ↦ rw (found, other, changed, req_battle_op) (sym (append_nil s.sent))
    | inl bound ↦
        let b' = (apply_battle_op b player_id op_id op).0 in
        elim (Bool-cases (is_success (apply_battle_op b player_id op_id op).1.code)) [
          | inl good ↦
              rw (found, bound, good, changed, req_battle_op)
                (ap (λ t. s.sent ++ t) (broadcast-news b'))
          | inr bad ↦
              let none_left : b'.room.deltas ≡ [] =
                ap (λ (c : BattleRoom). c.room.deltas) (apply-refused b player_id op_id op bad)
                ∙ q k b found in
              rw (found, bound, bad, changed, req_battle_op)
                (sym (ap (λ t. s.sent ++ t) (news-none b' none_left) ∙ append_nil s.sent))
        ]
  ]
]

finish-sent :
    (k : String) (b : BattleRoom) (s : BattleSvr) → (finish_battle_room k b s).sent ≡ s.sent
unfolding finish_battle_room
finish-sent k b s = elim (Option-cases b.loop) [
  | inl gone ↦ rw (gone, finish_battle_room) refl
  | inr (true, once) ↦ rw (once, finish_battle_room) refl
  | inr (false, first) ↦ rw (first, finish_battle_room) refl
]

tick-sent :
    (k : String) (s : BattleSvr)
    → (run_room_tick k s).sent ≡ s.sent ++ news_of (changed (ticks k) s)
unfolding run_room_tick
tick-sent k s = elim (Option-cases (find k s.rooms)) [
  | inl missing ↦ rw (missing, changed, run_room_tick) (sym (append_nil s.sent))
  | inr (b, found) ↦
      let b₁ = advance_loop_tick b in
      let told = ap (λ t. s.sent ++ t) (broadcast-news b₁) in
      elim (Bool-cases (is_closed b₁.room.state)) [
        | inl closed ↦ rw (found, closed, changed, run_room_tick) (finish-sent k _ _ ∙ told)
        | inr going ↦ rw (found, going, changed, run_room_tick) told
      ]
]

collect-sent : (k : String) (s : BattleSvr) → (collect_settlement k s).sent ≡ s.sent
unfolding collect_settlement
collect-sent k s = elim (Option-cases (find k s.rooms)) [
  | inl missing ↦ rw (missing, collect_settlement) refl
  | inr (b, found) ↦ elim (Bool-cases (is_in k s.settling)) [
    | inr idle ↦ rw (found, idle, collect_settlement) refl
    | inl waiting ↦ elim (Bool-cases (mark_settled b.room).1) [
      | inl first ↦ rw (found, waiting, first, collect_settlement) refl
      | inr again ↦ rw (found, waiting, again, collect_settlement) refl
    ]
  ]
]

answer-sent :
    (k : String) (answer : Try (Bool × String)) (s : BattleSvr)
    → (answer_settlement k answer s).sent ≡ s.sent
unfolding answer_settlement
answer-sent k answer s = elim (Option-cases (find k s.rooms)) [
  | inl missing ↦ rw (missing, answer_settlement) refl
  | inr (b, found) ↦ elim (Bool-cases (is_in k s.awaiting)) [
    | inl waiting ↦ rw (found, waiting, answer_settlement) refl
    | inr idle ↦ rw (found, idle, answer_settlement) refl
  ]
]

-- Of a server none of whose rooms holds a delta.
pub serve-sent :
    (e : ServerEvent) (s : BattleSvr)
    → Quiet s.rooms
    → (serve e s).sent ≡ s.sent ++ news_of (changed e s)
unfolding serve
serve-sent (creates room_id player_ids tower_deck) s q =
    create-sent room_id player_ids tower_deck s ∙ sym (append_nil s.sent)
serve-sent (joins sess_id player_id room_id token) s q =
    join-sent sess_id player_id room_id token s ∙ sym (append_nil s.sent)
serve-sent (operates sess_id player_id room_id op_id op) s q =
    operate-sent sess_id player_id room_id op_id op s q
serve-sent (ticks room_id) s q = tick-sent room_id s
serve-sent (collects room_id) s q = collect-sent room_id s ∙ sym (append_nil s.sent)
serve-sent (answers room_id answer) s q = answer-sent room_id answer s ∙ sym (append_nil s.sent)
