-- ===== src/Battle/Server/Reports.antt =====
-- src/service/battle/battleapp: what is reported to logic, whatever happens to the server.
use text.Mathlib.Text.{◌==◌ as str_eq}
use text.Mathlib.TextEquality.{eq_iff}
use heli.Common.{
  ltb, ◌≤◌, ◌<◌, true, false, String, List, [], ◌∷◌, some, ◌≡◌, refl, sym, ◌∙◌, inl, inr, arith,
  int_eq, string_eq, Bool-cases, Option-cases,
}
use heli.Common.Table.{Table, find, insert, find-insert_self}
use heli.Battle.Types.{Room, RoomState, Settlement}
use heli.Battle.Room.{mark_settled}
use heli.Battle.View.{build_settlement}
use heli.Battle.Server.State.{BattleRoom, BattleSvr}
use heli.Battle.Server.Loop.{collect_settlement, is_in, take_out, stop_room_loop}
use heli.Battle.Server.Events.{
  ServerEvent, creates, joins, operates, ticks, collects, answers, serve, serve_all, new_battle_svr,
}
use heli.Battle.Server.Settled.{Follows, Evolves-settle}
use heli.Common.{All, All-mono}
use heli.Battle.Server.Moves.{
  Moves-put, Final, Final-Moves, Closing-Moves, reports_of, Sound, Sound-quiet,
}
use heli.Battle.Server.Kept.{create-Sound, join-Sound, operate-Sound, tick-Sound, answer-Sound}

-- A report of a room names a room that is settled.
reported-settled :
    (k : String) (rooms : Table String BattleRoom) (reps : List Settlement)
    → All (Final rooms) reps
    → 0 < reports_of k reps
    → (b : BattleRoom) × (find k rooms ≡ some b) × (b.room.settled ≡ true)
reported-settled k rooms [] a h = absurd (omega arith)
reported-settled k rooms (rep ∷ reps) ((b, found, closed, settled, _, _), rest) h =
    elim (Bool-cases (str_eq rep.room_id k)) [
      | inl same ↦ let e = (eq_iff rep.room_id k).0 same in (b, rw (sym e) found, settled)
      | inr other ↦ reported-settled k rooms reps rest (ground arith)
    ]

take_out-is_in :
    (k j : String) (xs : List String) → is_in j (take_out k xs) ≡ true → is_in j xs ≡ true
unfolding is_in take_out
take_out-is_in k j [] h = h
take_out-is_in k j (x ∷ xs) h = ground (arith, take_out-is_in k j xs)

mark_settled-first :
    (r : Room)
    → (mark_settled r).1 ≡ true
    → (r.settled ≡ false) × ((mark_settled r).0 ≡ record r { settled = true })
unfolding mark_settled
mark_settled-first r h = ground arith

-- The first report of a closed room.
report-Sound :
    (k : String) (s : BattleSvr) (b c : BattleRoom) (rep : Settlement)
    → Sound s
    → find k s.rooms ≡ some b
    → b.room.state ≡ RoomState.closed
    → b.room.settled ≡ false
    → Follows b c
    → c.room.settled ≡ true
    → rep.room_id ≡ k
    → rep.finish_reason ≡ c.room.finish_reason
    → rep.end_tick ≡ c.room.end_tick
    → Sound (record s {
      rooms = insert k c s.rooms;
      settling = take_out k s.settling;
      awaiting = k ∷ s.awaiting;
      reports = rep ∷ s.reports;
    })
report-Sound k s b c rep v found closed unsettled f settled here reason ended =
    let m = Moves-put k b c s.rooms found f in
    let outcome = f.evolves.keeps_outcome closed in
    let none_yet : reports_of k s.reports ≡ 0 = elim (Bool-cases (ltb 0 (reports_of k s.reports))) [
      | inr zero_reports ↦ ground arith
      | inl some_report ↦
          let (b', found', settled') =
            reported-settled k s.rooms s.reports v.final (ground arith) in
          absurd (ground arith)
    ] in
    record {
      named = m.names v.named;
      closing = λ j h. Closing-Moves s.rooms _ m j (v.closing j (take_out-is_in k j s.settling h));
      final = (
        (c, rw here (find-insert_self k c s.rooms), outcome.state ∙ closed, settled, reason, ended),
        All-mono (Final s.rooms) (Final (insert k c s.rooms)) s.reports (Final-Moves s.rooms _ m)
            v.final,
      );
      once = λ j. elim (Bool-cases (str_eq rep.room_id j)) [
        | inl same ↦
            let e : k ≡ j = sym here ∙ (eq_iff rep.room_id j).0 same in
            let zero_reports : reports_of j s.reports ≡ 0 = rw (sym e) none_yet in
            rw (same, zero_reports) (omega arith)
        | inr other ↦ rw other (v.once j)
      ];
    }

-- The goroutine's first part.
collect-Sound : (k : String) (s : BattleSvr) → Sound s → Sound (collect_settlement k s)
unfolding collect_settlement build_settlement
collect-Sound k s v = elim (Option-cases (find k s.rooms)) [
  | inl missing ↦ rw (missing, collect_settlement) v
  | inr (b, found) ↦ elim (Bool-cases (is_in k s.settling)) [
    | inr idle ↦ rw (found, idle, collect_settlement) v
    | inl waiting ↦
        let (b', found', closed') = v.closing k waiting in
        let same_room : b' ≡ b = ground arith in
        let closed : b.room.state ≡ RoomState.closed = rw (sym same_room) closed' in
        let r = (mark_settled b.room).0 in
        let kept = Evolves-settle b.room in
        elim (Bool-cases (mark_settled b.room).1) [
          | inr again ↦
              let c : BattleRoom = stop_room_loop (record b { room = r }) in
              let m = Moves-put k b c s.rooms found (record { same_id = refl; evolves = kept }) in
              rw (found, waiting, again, collect_settlement)
                (Sound-quiet s
                  (record s { rooms = insert k c s.rooms; settling = take_out k s.settling }) v m
                  refl
                  (λ j h.
                    Closing-Moves s.rooms _ m j (v.closing j (take_out-is_in k j s.settling h))))
          | inl first ↦
              let (unsettled, moved) = mark_settled-first b.room first in
              let rep = build_settlement b.id r in
              let c : BattleRoom = record b { room = r; last_settlement = some rep } in
              rw (found, waiting, first, collect_settlement)
                (report-Sound k s b c rep v found closed unsettled
                  (record { same_id = refl; evolves = kept }) (rw moved refl) (v.named k b found)
                  refl refl)
        ]
  ]
]

serve-Sound : (e : ServerEvent) (s : BattleSvr) → Sound s → Sound (serve e s)
unfolding serve
serve-Sound (creates room_id player_ids tower_deck) s v =
    create-Sound room_id player_ids tower_deck s v
serve-Sound (joins sess_id player_id room_id token) s v =
    join-Sound sess_id player_id room_id token s v
serve-Sound (operates sess_id player_id room_id op_id op) s v =
    operate-Sound sess_id player_id room_id op_id op s v
serve-Sound (ticks room_id) s v = tick-Sound room_id s v
serve-Sound (collects room_id) s v = collect-Sound room_id s v
serve-Sound (answers room_id answer) s v = answer-Sound room_id answer s v

serve_all-Sound : (es : List ServerEvent) (s : BattleSvr) → Sound s → Sound (serve_all es s)
unfolding serve_all
serve_all-Sound [] s v = v
serve_all-Sound (e ∷ es) s v = serve_all-Sound es (serve e s) (serve-Sound e s v)

new_battle_svr-Sound : Sound new_battle_svr
unfolding new_battle_svr find is_in
new_battle_svr-Sound = record {
  named = λ k b h. ground arith;
  closing = λ k h. ground arith;
  final = tt;
  once = λ k. omega arith;
}

-- Whatever sequence of creations, joins, operations, ticks, settlements and answers a new server goes
-- through, it reports each room to logic at most once.
pub reported_once :
    (es : List ServerEvent) (room_id : String)
    → reports_of room_id (serve_all es new_battle_svr).reports ≤ 1
reported_once es room_id = (serve_all-Sound es new_battle_svr new_battle_svr-Sound).once room_id

-- Whatever sequence of events a new server goes through, every settlement it has reported belongs
-- to a room of the server that is closed and marked as settled, and gives the finish reason and
-- the end tick that the room has now.
pub reports-Final :
    (es : List ServerEvent) → let s = serve_all es new_battle_svr in All (Final s.rooms) s.reports
reports-Final es = (serve_all-Sound es new_battle_svr new_battle_svr-Sound).final
