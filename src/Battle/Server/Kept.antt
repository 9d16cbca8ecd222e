-- ===== src/Battle/Server/Kept.antt =====
-- src/service/battle/battleapp: the events that report no settlement.
use text.Mathlib.Text.{◌==◌ as str_eq}
use text.Mathlib.TextEquality.{eq_iff}
use heli.Common.{
  ◌⊎◌, ◌++◌, ℤ, Bool, true, false, String, List, ◌∷◌, Option, none, some, ◌≡◌, refl, sym, ◌∙◌, inl,
  inr, arith, int_eq, string_eq, Bool-cases, Option-cases,
}
use heli.Common.Table.{Table, find, insert, find-insert_self}
use heli.Battle.Types.{RoomState}
use heli.Battle.Tick.{is_closed}
use heli.Battle.Server.State.{BattleRoom, BattleSvr, BattleOp, Try, Try-cases, given}
use heli.Battle.Server.Rooms.{
  verify_battle_token, match_player_session, create_room, start_room_loop, rpc_create_battle_room,
  bind_player_session, req_battle_join, put_room,
}
use heli.Battle.Server.Ops.{is_success, apply_battle_op, broadcast_room_delta, req_battle_op}
use heli.Battle.Server.Loop.{
  advance_loop_tick, finish_battle_room, run_room_tick, answer_settlement, is_in,
}
use heli.Battle.Server.Token.{build_battle_token}
use heli.Battle.Server.Settled.{
  Follows, Evolves-refl, Follows-trans, broadcast-Follows, apply-Follows, advance-Follows,
  answer-Follows,
}
use heli.Battle.Server.Moves.{
  Moves-trans, Moves-put, Moves-new, Closing-Moves, Sound, Sound-quiet, Sound-still,
}

put-Sound :
    (s : BattleSvr) (k : String) (b c : BattleRoom)
    → Sound s
    → find k s.rooms ≡ some b
    → Follows b c
    → Sound (put_room k c s)
put-Sound s k b c v found f =
    Sound-still s (put_room k c s) v (Moves-put k b c s.rooms found f) refl refl

create_room-new :
    (k : String) (player_ids deck : List ℤ) (token : String) (rooms : Table String BattleRoom)
    (b : BattleRoom) (rooms' : Table String BattleRoom)
    → create_room k player_ids deck token rooms ≡ given (b, rooms')
    → (find k rooms ≡ none) × (b.id ≡ k) × (b.loop ≡ none) × (rooms' ≡ insert k b rooms)
unfolding create_room
create_room-new k player_ids deck token rooms b rooms' h = ground arith

start-Follows : (b : BattleRoom) → Follows b (start_room_loop b)
unfolding start_room_loop
start-Follows b = let same = Evolves-refl b.room in ground arith

pub create-Sound :
    (k : String) (player_ids deck : List ℤ) (s : BattleSvr)
    → Sound s
    → Sound (rpc_create_battle_room k player_ids deck s).0
unfolding rpc_create_battle_room
create-Sound k player_ids deck s v =
    elim (Try-cases (create_room k player_ids deck (build_battle_token k player_ids) s.rooms)) [
      | inl (message, e) ↦ rw (e, rpc_create_battle_room) v
      | inr ((b, rooms), e) ↦
          let (fresh, named, idle, stored) =
            create_room-new k player_ids deck _ s.rooms b rooms e in
          let new = Moves-new k b s.rooms fresh named in
          let put =
            Moves-put k b (start_room_loop b) (insert k b s.rooms) (find-insert_self k b s.rooms)
              (start-Follows b) in
          rw (e, rpc_create_battle_room, stored)
            (Sound-still s
              (put_room k (start_room_loop b) (record s { rooms = insert k b s.rooms })) v
              (Moves-trans s.rooms (insert k b s.rooms) _ new put) refl refl)
    ]

pub join-Sound :
    (sess_id player_id : ℤ) (k token : String) (s : BattleSvr)
    → Sound s
    → Sound (req_battle_join sess_id player_id k token s).0
unfolding req_battle_join
join-Sound sess_id player_id k token s v = elim (Option-cases (find k s.rooms)) [
  | inl missing ↦ rw (missing, req_battle_join) v
  | inr (b, found) ↦ elim (Option-cases (verify_battle_token (some b) player_id k token)) [
    | inl good ↦
        rw (found, good, req_battle_join)
          (put-Sound s k b (bind_player_session player_id sess_id b) v found
            (record { same_id = refl; evolves = Evolves-refl b.room }))
    | inr (message, bad) ↦ rw (found, bad, req_battle_join) v
  ]
]

pub operate-Sound :
    (sess_id player_id : ℤ) (k op_id : String) (op : Option BattleOp) (s : BattleSvr)
    → Sound s
    → Sound (req_battle_op sess_id player_id k op_id op s).0
unfolding req_battle_op
operate-Sound sess_id player_id k op_id none s v = v
operate-Sound sess_id player_id k op_id (some op) s v = elim (Option-cases (find k s.rooms)) [
  | inl missing ↦ rw (missing, req_battle_op) v
  | inr (b, found) ↦ elim (Bool-cases (match_player_session player_id sess_id b)) [
    | inr other ↦ rw (found, other, req_battle_op) v
    | inl bound ↦
        let c = (apply_battle_op b player_id op_id op).0 in
        let f = apply-Follows b player_id op_id op in
        elim (Bool-cases (is_success (apply_battle_op b player_id op_id op).1.code)) [
          | inl good ↦
              rw (found, bound, good, req_battle_op)
                (Sound-still s _ v
                  (Moves-put k b _ s.rooms found (Follows-trans b c _ f (broadcast-Follows c))) refl
                  refl)
          | inr bad ↦ rw (found, bound, bad, req_battle_op) (put-Sound s k b c v found f)
        ]
  ]
]

is_in-cons :
    (k j : String) (xs : List String) → is_in k (j ∷ xs) ≡ true → (j ≡ k) ⊎ (is_in k xs ≡ true)
unfolding is_in
is_in-cons k j xs h = elim (Bool-cases (str_eq j k)) [
  | inl same ↦ inl ((eq_iff j k).0 same)
  | inr other ↦ inr (ground arith)
]

finish-Sound :
    (k : String) (b : BattleRoom) (s : BattleSvr)
    → Sound s
    → find k s.rooms ≡ some b
    → b.room.state ≡ RoomState.closed
    → Sound (finish_battle_room k b s)
unfolding finish_battle_room
finish-Sound k b s v found closed = elim (Option-cases b.loop) [
  | inl gone ↦ rw (gone, finish_battle_room) v
  | inr (true, once) ↦ rw (once, finish_battle_room) v
  | inr (false, first) ↦
      let c : BattleRoom = record b { loop = some true } in
      let m =
        Moves-put k b c s.rooms found (record { same_id = refl; evolves = Evolves-refl b.room }) in
      rw (first, finish_battle_room)
        (Sound-quiet s (record s { rooms = insert k c s.rooms; settling = k ∷ s.settling }) v m refl
          (λ j h. elim (is_in-cons j k s.settling h) [
            | inl same ↦ (c, rw (sym same) (find-insert_self k c s.rooms), closed)
            | inr old ↦ Closing-Moves s.rooms _ m j (v.closing j old)
          ]))
]

pub tick-Sound : (k : String) (s : BattleSvr) → Sound s → Sound (run_room_tick k s)
unfolding run_room_tick
tick-Sound k s v = elim (Option-cases (find k s.rooms)) [
  | inl missing ↦ rw (missing, run_room_tick) v
  | inr (b, found) ↦
      let b₁ = advance_loop_tick b in
      let b₂ = (broadcast_room_delta b₁).0 in
      let s₁ : BattleSvr = record s {
        rooms = insert k b₂ s.rooms;
        sent = s.sent ++ (broadcast_room_delta b₁).1;
      } in
      let f = broadcast-Follows b₁ in
      let v₁ : Sound s₁ =
        Sound-still s s₁ v
          (Moves-put k b b₂ s.rooms found (Follows-trans b b₁ b₂ (advance-Follows b) f)) refl
          refl in
      elim (Bool-cases (is_closed b₁.room.state)) [
        | inl closed ↦
            let done : b₁.room.state ≡ RoomState.closed = ground arith in
            rw (found, closed, run_room_tick)
              (finish-Sound k b₂ s₁ v₁ (find-insert_self k b₂ s.rooms)
                ((f.evolves.keeps_outcome done).state ∙ done))
        | inr going ↦ rw (found, going, run_room_tick) v₁
      ]
]

pub answer-Sound :
    (k : String) (answer : Try (Bool × String)) (s : BattleSvr)
    → Sound s
    → Sound (answer_settlement k answer s)
unfolding answer_settlement
answer-Sound k answer s v = elim (Option-cases (find k s.rooms)) [
  | inl missing ↦ rw (missing, answer_settlement) v
  | inr (b, found) ↦ elim (Bool-cases (is_in k s.awaiting)) [
    | inl waiting ↦
        rw (found, waiting, answer_settlement)
          (Sound-still s _ v (Moves-put k b _ s.rooms found (answer-Follows answer b)) refl refl)
    | inr idle ↦ rw (found, idle, answer_settlement) v
  ]
]
