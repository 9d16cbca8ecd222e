-- ===== src/Battle/Life.antt =====
-- The life of a room of src/service/battle/sync/room.go under any sequence of its calls.
use heli.Common.{ℤ, List, [], ◌∷◌, true, false, ◌≡◌, refl, ◌∙◌, inl, inr, arith}
use heli.Battle.Types.{Room, RoomState}
use heli.Battle.Results.{Result, accept, refuse}
use heli.Battle.Room.{add_player, start, abort, mark_settled}
use heli.Battle.Commands.Accepts.{
  build_tower_cases, reroll_tower_cases, merge_tower_cases, buy_miner_cases, drawn_room,
}
use heli.Battle.Commands.Effects.{
  place_tower_frame, retype_tower_frame, fuse_towers_frame, add_miner_frame,
}
use heli.Battle.Commands.Keep.{Command, build, reroll, merge, buy, run_command}
use heli.Battle.Tick.{tick, ensure_started, advance_to_tick}
use heli.Battle.Tick.Frame.{tick_frame}
use heli.Battle.Tick.Loop.{advance_to_tick_closed, advance_rounds_inv}
use heli.Battle.View.{flush_deltas}

-- A call of a method of `Room` that may change it.
pub data Event : Type 0 where
  joins : ℤ → List ℤ → Event
  starts aborts settles flushes : Event
  commands : Command → Event
  advances : ℤ → Event

abbrev pub accepted : Room → Result Room → Room
accepted r (accept s) = s
accepted r (refuse code) = r

unfoldable pub step : Event → Room → Room
step (joins player_id deck) r = accepted r (add_player player_id deck r)
step starts r = (start r).0
step aborts r = (abort r).0
step settles r = (mark_settled r).0
step flushes r = (flush_deltas r).0
step (commands c) r = (run_command c r).0
step (advances target) r = advance_to_tick target r

unfoldable pub run : List Event → Room → Room
run [] r = r
run (e ∷ es) r = run es (step e r)

-- A player operation changes none of these.
pub run_command_frame :
    (c : Command) (r : Room)
    → let s = (run_command c r).0 in
      s ≡ record r {
        next_tower_id = s.next_tower_id;
        next_miner_id = s.next_miner_id;
        random_index = s.random_index;
        players = s.players;
        towers = s.towers;
        grid_tower = s.grid_tower;
        deltas = s.deltas;
      }
unfolding run_command
run_command_frame (build player_id op_id grid_id) r =
    elim (build_tower_cases player_id op_id grid_id r) [
      | inr (same, _) ↦ ground arith
      | inl (p, type_id, can, e) ↦
          ground (arith, place_tower_frame player_id op_id grid_id type_id p (drawn_room r))
    ]
run_command_frame (reroll player_id op_id tower_id) r =
    elim (reroll_tower_cases player_id op_id tower_id r) [
      | inr (same, _) ↦ ground arith
      | inl (p, t, type_id, can, e) ↦
          ground (arith, retype_tower_frame player_id op_id tower_id type_id p t (drawn_room r))
    ]
run_command_frame (merge player_id op_id main_id material_id) r =
    elim (merge_tower_cases player_id op_id main_id material_id r) [
      | inr (same, _) ↦ ground arith
      | inl (p, m, t, type_id, can, e) ↦
          ground (
            arith,
            fuse_towers_frame player_id op_id main_id material_id type_id m t (drawn_room r),
          )
    ]
run_command_frame (buy player_id op_id) r = elim (buy_miner_cases player_id op_id r) [
  | inr (same, _) ↦ ground arith
  | inl (p, known, cover, e) ↦ ground (arith, add_miner_frame player_id op_id p r)
]

-- The outcome of a closed room.
pub record SameOutcome (r s : Room) : Type 0 where
  pub state : s.state ≡ r.state
  pub reason : s.finish_reason ≡ r.finish_reason
  pub ended : s.end_tick ≡ r.end_tick
  pub now : s.server_tick ≡ r.server_tick
  pub base : s.base_hp ≡ r.base_hp

pub step_closed : (e : Event) (r : Room) → r.state ≡ RoomState.closed → SameOutcome r (step e r)
unfolding step
step_closed (joins player_id deck) r h = unfold add_player in (ground arith)
step_closed starts r h = unfold start in (ground arith)
step_closed aborts r h = unfold abort in (ground arith)
step_closed settles r h = unfold mark_settled in (ground arith)
step_closed flushes r h = unfold flush_deltas in (ground arith)
step_closed (commands c) r h = ground (arith, run_command_frame c r)
step_closed (advances target) r h = ground (arith, advance_to_tick_closed target r h)

-- Once a room is closed, no sequence of calls opens it again, moves its clock or changes how and
-- when it ended.
pub run_closed :
    (es : List Event) (r : Room) → r.state ≡ RoomState.closed → SameOutcome r (run es r)
unfolding run
run_closed [] r h = record { state = refl; reason = refl; ended = refl; now = refl; base = refl }
run_closed (e ∷ es) r h =
    let one = step_closed e r h in
    let rest = run_closed es (step e r) (one.state ∙ h) in
    record {
      state = rest.state ∙ one.state;
      reason = rest.reason ∙ one.reason;
      ended = rest.ended ∙ one.ended;
      now = rest.now ∙ one.now;
      base = rest.base ∙ one.base;
    }

round_settled : (r : Room) → r.settled ≡ true → (tick (ensure_started r)).settled ≡ true
unfolding ensure_started
round_settled r h = ground (arith, tick_frame (ensure_started r))

pub step_settled : (e : Event) (r : Room) → r.settled ≡ true → (step e r).settled ≡ true
unfolding step
step_settled (joins player_id deck) r h = unfold add_player in (ground arith)
step_settled starts r h = unfold start in (ground arith)
step_settled aborts r h = unfold abort in (ground arith)
step_settled settles r h = unfold mark_settled in (ground arith)
step_settled flushes r h = unfold flush_deltas in (ground arith)
step_settled (commands c) r h = ground (arith, run_command_frame c r)
step_settled (advances target) r h =
    unfold advance_to_tick in
    (advance_rounds_inv (λ s. s.settled ≡ true) target (λ s k _ _. round_settled s k) _ r h)

run_settled : (es : List Event) (r : Room) → r.settled ≡ true → (run es r).settled ≡ true
unfolding run
run_settled [] r h = h
run_settled (e ∷ es) r h = run_settled es (step e r) (step_settled e r h)

-- A room is marked as settled at most once: after one call of `MarkSettled`, whatever it answered,
-- and any calls behind it, a further call answers false.
pub mark_settled_once :
    (es : List Event) (r : Room) → (mark_settled (run es (mark_settled r).0)).1 ≡ false
unfolding mark_settled
mark_settled_once es r = ground (arith, run_settled es (mark_settled r).0 (ground arith))
