-- ===== src/Battle/Reach.antt =====
-- What holds of every room of src/service/battle/sync/room.go that its calls can lead to.
use heli.Common.{
  ℕ, ◌+◌, ◌^◌, ◌<◌, ℤ, pos, ◌+ℤ◌, ◌≤ℤ◌, Is64, Is32, List, [], ◌∷◌, length, ◌≡◌, refl, inl, inr, ◌⊎◌,
  arith, go_laws, add64,
}
use heli.Common.Table.{find}
use heli.Battle.Types.{Room, RoomConfig}
use heli.Battle.Room.{new_room, add_player, start, abort, mark_settled}
use heli.Battle.Commands.Accepts.{
  build_tower_cases, reroll_tower_cases, merge_tower_cases, buy_miner_cases, drawn_room,
}
use heli.Battle.Commands.Effects.{
  place_tower_frame, retype_tower_frame, fuse_towers_frame, add_miner_frame,
}
use heli.Battle.Commands.Grid.{GridAgrees, GridAgrees-of_eq}
use heli.Battle.Commands.Keep.{
  Command, build, reroll, merge, buy, run_command, run_command-GridAgrees,
}
use heli.Battle.Tick.{tick, ensure_started, advance_to_tick}
use heli.Battle.Tick.Frame.{tick_frame}
use heli.Battle.Tick.Loop.{advance_rounds_inv}
use heli.Battle.View.{flush_deltas}
use heli.Battle.Life.{
  Event, joins, starts, aborts, settles, flushes, commands, advances, step, run, accepted,
}

-- The counter of tower ids moves on by at most one in a call.
abbrev Counts : ℤ → ℤ → Type 0
Counts n m = (m ≡ n) ⊎ (m ≡ add64 n (pos 1))

run_command-Counts :
    (c : Command) (r : Room) → Counts r.next_tower_id (run_command c r).0.next_tower_id
unfolding run_command
run_command-Counts (build player_id op_id grid_id) r =
    elim (build_tower_cases player_id op_id grid_id r) [
      | inr (same, _) ↦ inl (ground arith)
      | inl (p, type_id, can, e) ↦
          inr (ground (arith, place_tower_frame player_id op_id grid_id type_id p (drawn_room r)))
    ]
run_command-Counts (reroll player_id op_id tower_id) r =
    elim (reroll_tower_cases player_id op_id tower_id r) [
      | inr (same, _) ↦ inl (ground arith)
      | inl (p, t, type_id, can, e) ↦
          inl
            (ground (arith, retype_tower_frame player_id op_id tower_id type_id p t (drawn_room r)))
    ]
run_command-Counts (merge player_id op_id main_id material_id) r =
    elim (merge_tower_cases player_id op_id main_id material_id r) [
      | inr (same, _) ↦ inl (ground arith)
      | inl (p, m, t, type_id, can, e) ↦ inl (
          ground (
            arith,
            fuse_towers_frame player_id op_id main_id material_id type_id m t (drawn_room r),
          ))
    ]
run_command-Counts (buy player_id op_id) r = elim (buy_miner_cases player_id op_id r) [
  | inr (same, _) ↦ inl (ground arith)
  | inl (p, known, cover, e) ↦ inl (ground (arith, add_miner_frame player_id op_id p r))
]

-- The towers, the grid, their counter and the configuration are the same.
record SameGrid (r s : Room) : Type 0 where
  towers : s.towers ≡ r.towers
  grid : s.grid_tower ≡ r.grid_tower
  next : s.next_tower_id ≡ r.next_tower_id
  cfg : s.cfg ≡ r.cfg

SameGrid-refl : (r : Room) → SameGrid r r
SameGrid-refl r = record { towers = refl; grid = refl; next = refl; cfg = refl }

round-SameGrid : (r s : Room) → SameGrid r s → SameGrid r (tick (ensure_started s))
unfolding ensure_started
round-SameGrid r s h = ground (arith, tick_frame (ensure_started s))

-- A call that is no player operation leaves them alone.
advance-SameGrid : (target : ℤ) (r : Room) → SameGrid r (advance_to_tick target r)
unfolding advance_to_tick
advance-SameGrid target r =
    advance_rounds_inv (SameGrid r) target (λ s h _ _. round-SameGrid r s h) _ r (SameGrid-refl r)

join-SameGrid :
    (player_id : ℤ) (deck : List ℤ) (r : Room)
    → SameGrid r (accepted r (add_player player_id deck r))
unfolding add_player
join-SameGrid player_id deck r = ground arith

start-SameGrid : (r : Room) → SameGrid r (start r).0
unfolding start
start-SameGrid r = ground arith

abort-SameGrid : (r : Room) → SameGrid r (abort r).0
unfolding abort
abort-SameGrid r = ground arith

settle-SameGrid : (r : Room) → SameGrid r (mark_settled r).0
unfolding mark_settled
settle-SameGrid r = ground arith

flush-SameGrid : (r : Room) → SameGrid r (flush_deltas r).0
unfolding flush_deltas
flush-SameGrid r = ground arith

abbrev Keeps : Room → Room → Type 0
Keeps r s = GridAgrees s × Counts r.next_tower_id s.next_tower_id

SameGrid-Keeps : (r s : Room) → SameGrid r s → GridAgrees r → Keeps r s
SameGrid-Keeps r s h v = (GridAgrees-of_eq r s h.towers h.grid h.next h.cfg v, inl h.next)

step-Keeps :
    (e : Event) (r : Room) → GridAgrees r → Is64 (r.next_tower_id +ℤ pos 1) → Keeps r (step e r)
unfolding step
step-Keeps (joins player_id deck) r v room = SameGrid-Keeps r _ (join-SameGrid player_id deck r) v
step-Keeps starts r v room = SameGrid-Keeps r _ (start-SameGrid r) v
step-Keeps aborts r v room = SameGrid-Keeps r _ (abort-SameGrid r) v
step-Keeps settles r v room = SameGrid-Keeps r _ (settle-SameGrid r) v
step-Keeps flushes r v room = SameGrid-Keeps r _ (flush-SameGrid r) v
step-Keeps (commands c) r v room = (run_command-GridAgrees c r v room, run_command-Counts c r)
step-Keeps (advances target) r v room = SameGrid-Keeps r _ (advance-SameGrid target r) v

run-GridAgrees :
    (es : List Event) (r : Room) (n : ℕ)
    → GridAgrees r
    → pos 0 ≤ℤ r.next_tower_id
    → r.next_tower_id ≤ℤ pos n
    → n + length es < 2 ^ 63
    → GridAgrees (run es r)
unfolding run
run-GridAgrees [] r n v low high fits = v
run-GridAgrees (e ∷ es) r n v low high fits =
    let (kept, counts) = step-Keeps e r v (omega go_laws) in
    elim counts [
      | inl same ↦
          run-GridAgrees es (step e r) (n + 1) kept (rw same low) (rw same (omega arith))
            (omega arith)
      | inr next ↦
          run-GridAgrees es (step e r) (n + 1) kept (rw next (omega go_laws))
            (rw next (omega go_laws)) (omega arith)
    ]

new_room-GridAgrees : (cfg : RoomConfig) → Is32 cfg.tower_max_level → GridAgrees (new_room cfg)
unfolding new_room find
new_room-GridAgrees cfg h = record {
  agrees = record { stands = λ id t e. ground arith; occupied = λ g id e. ground arith };
  limit_pos = ground arith;
  limit_int32 = ground arith;
}

-- In every room that `NewRoom` and any sequence of calls lead to, each tower stands on its own cell
-- of the grid, each taken cell holds exactly the tower that the grid names, and every level lies
-- between 1 and the limit. The level limit must be an int32, and the calls fewer than 2 ^ 63 - 1,
-- so that the counter of tower ids does not overflow.
pub reachable-GridAgrees :
    (cfg : RoomConfig) (es : List Event)
    → Is32 cfg.tower_max_level
    → length es + 1 < 2 ^ 63
    → GridAgrees (run es (new_room cfg))
unfolding new_room
reachable-GridAgrees cfg es h fits =
    run-GridAgrees es (new_room cfg) 1 (new_room-GridAgrees cfg h) (omega arith) (omega arith)
      (omega arith)
