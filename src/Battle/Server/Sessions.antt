-- ===== src/Battle/Server/Sessions.antt =====
-- src/service/battle/battleapp: who may join a room, and who may operate in it.
use text.Mathlib.Text.{starts_with, ◌==◌ as str_eq}
use text.Mathlib.TextPositions.{starts_with-append, eq_refl}
use text.Mathlib.TextLemmas.{append-eq-nil_iff, cons≢nil}
use text.Mathlib.TextEquality.{eq_iff}
use heli.Common.{
  ℤ, true, false, String, List, none, some, ◌≡◌, refl, inl, inr, arith, int_eq, string_eq,
  eqb_ℤ_iff, Bool-cases,
}
use heli.Common.Table.{Table, find, find-insert_self}
use heli.Battle.Room.{contains}
use heli.Battle.Server.State.{BattleRoom, BattleSvr, ServerCode, Try-cases, given}
use heli.Battle.Server.Token.{token_prefix, build_battle_token}
use heli.Battle.Server.Rooms.{
  create_room, start_room_loop, rpc_create_battle_room, verify_battle_token, bind_player_session,
  match_player_session, req_battle_join,
}

token_starts :
    (room_id : String) (player_ids : List ℤ)
    → starts_with (build_battle_token room_id player_ids) (token_prefix room_id) ≡ true
unfolding build_battle_token
token_starts room_id player_ids = starts_with-append (token_prefix room_id) _

token_nonempty :
    (room_id : String) (player_ids : List ℤ)
    → str_eq (build_battle_token room_id player_ids) "" ≡ false
unfolding build_battle_token
token_nonempty room_id player_ids =
    elim (Bool-cases (str_eq (build_battle_token room_id player_ids) "")) [
      | inr e ↦ e
      | inl e ↦
          let blank =
            append-eq-nil_iff.0 ((eq_iff (build_battle_token room_id player_ids) "").0 e) in
          let first : "battle:" ≡ "" = (append-eq-nil_iff.0 blank.0).0 in absurd (cons≢nil first)
    ]

-- A player whose session is bound in the room of that id.
abbrev pub Joined : ℤ → ℤ → String → BattleSvr → Type 0
Joined sess_id player_id room_id s =
    (b : BattleRoom) × (find room_id s.rooms ≡ some b)
    × (match_player_session player_id sess_id b ≡ true)

-- What `rpcCreateBattleRoom` has stored when it grants a room.
record Created (room_id : String) (player_ids : List ℤ) (token : String) (b : BattleRoom)
    : Type 0 where
  not_empty : str_eq room_id "" ≡ false
  named : b.id ≡ room_id
  owned : b.player_ids ≡ player_ids
  secret : b.allowed_token ≡ token
  made : token ≡ build_battle_token room_id player_ids

-- A granted creation of a room is one that the manager has stored.
create_room-Created :
    (room_id : String) (player_ids deck : List ℤ) (token : String) (rooms : Table String BattleRoom)
    (b : BattleRoom) (rooms' : Table String BattleRoom)
    → create_room room_id player_ids deck token rooms ≡ given (b, rooms')
    → (str_eq room_id "" ≡ false)
      × (b.id ≡ room_id)
      × (b.player_ids ≡ player_ids)
      × (b.allowed_token ≡ token)
      × (b.loop ≡ none)
unfolding create_room
create_room-Created room_id player_ids deck token rooms b rooms' h = ground arith

create-Created :
    (room_id : String) (player_ids deck : List ℤ) (s : BattleSvr) (token : String)
    → (rpc_create_battle_room room_id player_ids deck s).1 ≡ given token
    → (b : BattleRoom) × (find room_id (rpc_create_battle_room room_id player_ids deck s).0.rooms
        ≡ some b)
      × Created room_id player_ids token b
unfolding rpc_create_battle_room start_room_loop
create-Created room_id player_ids deck s token h =
    elim (Try-cases
      (create_room room_id player_ids deck (build_battle_token room_id player_ids) s.rooms)) [
        | inl (message, e) ↦ absurd (ground arith)
        | inr ((b, rooms), e) ↦
            let made =
              create_room-Created room_id player_ids deck (build_battle_token room_id player_ids)
                s.rooms b rooms e in
            (
              record b { loop = some false },
              ground (arith, find-insert_self room_id (record b { loop = some false }) rooms),
              ground arith,
            )
      ]

-- The token check lets a member in with the token of the room.
verify-Created :
    (room_id : String) (player_ids : List ℤ) (token : String) (b : BattleRoom) (player_id : ℤ)
    → Created room_id player_ids token b
    → contains player_id player_ids ≡ true
    → verify_battle_token (some b) player_id room_id token ≡ none
unfolding verify_battle_token
verify-Created room_id player_ids token b player_id c member =
    let whole = token_nonempty room_id player_ids in
    let begins = token_starts room_id player_ids in
    let here = eq_refl room_id in
    let same = eq_refl token in
    let not_blank : str_eq token "" ≡ false = rw c.made whole in
    let starts : starts_with token (token_prefix room_id) ≡ true = rw c.made begins in
    rw (c.named, c.owned, c.secret, c.not_empty, here, member, not_blank, same, starts) refl

-- A join that the token check lets through.
join-Joined :
    (room_id token : String) (sess_id player_id : ℤ) (s : BattleSvr) (b : BattleRoom)
    → find room_id s.rooms ≡ some b
    → verify_battle_token (some b) player_id room_id token ≡ none
    → let joined = req_battle_join sess_id player_id room_id token s in
      (joined.1 ≡ ServerCode.success) × Joined sess_id player_id room_id joined.0
unfolding req_battle_join match_player_session
join-Joined room_id token sess_id player_id s b found good =
    let bound = (eqb_ℤ_iff sess_id sess_id).1 refl in
    rw (found, good, req_battle_join)
      (
        refl,
        (
          bind_player_session player_id sess_id b,
          find-insert_self room_id _ _,
          rw (match_player_session, find-insert_self player_id sess_id b.joined_sess) bound,
        ),
      )

-- A room that was just granted lets every one of its players in: with the token of the grant, a join
-- from any session succeeds, and binds that session to the player.
pub create_then_join :
    (room_id : String) (player_ids deck : List ℤ) (s : BattleSvr) (token : String)
    (sess_id player_id : ℤ)
    → let s' = (rpc_create_battle_room room_id player_ids deck s).0 in
      let joined = req_battle_join sess_id player_id room_id token s' in
      (rpc_create_battle_room room_id player_ids deck s).1 ≡ given token
      → contains player_id player_ids ≡ true
      → (joined.1 ≡ ServerCode.success) × Joined sess_id player_id room_id joined.0
create_then_join room_id player_ids deck s token sess_id player_id h member =
    let (b, found, c) = create-Created room_id player_ids deck s token h in
    let good = verify-Created room_id player_ids token b player_id c member in
    join-Joined room_id token sess_id player_id (rpc_create_battle_room room_id player_ids deck s).0
      b found good
