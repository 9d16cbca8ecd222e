-- ===== src/Battle/Tick/Loop.antt =====
-- The loop of `AdvanceToTick` in src/service/battle/sync/room.go: where it stops, and that it leaves a
-- closed room alone.
use heli.Common.{
  ℕ, zero, suc, ◌+◌, ◌≤◌, ◌<◌, ℤ, pos, pos_part, neg_part, ◌-ℤ◌, ◌≤ℤ◌, ◌<ℤ◌, ltb_ℤ, add64, Is64,
  ◌≡◌, ◌≢◌, refl, ◌⊎◌, inl, inr, ◌&&◌, not, arith, go_laws, Bool-cases,
}
use heli.Battle.Types.{Room, RoomState}
use heli.Battle.Tick.{advance_rounds, advance_to_tick, tick, ensure_started, is_closed}
use heli.Battle.Tick.Frame.{tick_frame}

-- An invariant of the rounds holds after the loop.
pub advance_rounds_inv {ℓ} :
    (P : Room → Type ℓ) (target : ℤ)
    → ((r : Room)
        → P r
        → r.server_tick <ℤ target
        → r.state ≢ RoomState.closed
        → P (tick (ensure_started r)))
    → (fuel : ℕ) (r : Room) → P r
    → P (advance_rounds fuel target r)
unfolding advance_rounds
advance_rounds_inv P target keep zero r h = h
advance_rounds_inv P target keep (suc fuel) r h =
    elim (Bool-cases (ltb_ℤ r.server_tick target && not (is_closed r.state))) [
      | inr stop ↦ rw (stop, advance_rounds) h
      | inl go ↦
          rw (go, advance_rounds)
            (advance_rounds_inv P target keep fuel (tick (ensure_started r))
              (keep r h (ground arith) (λ e. ground arith)))
    ]

-- The round started from a room that is not closed is at the next tick.
round_tick : (r : Room) → (tick (ensure_started r)).server_tick ≡ add64 r.server_tick (pos 1)
unfolding ensure_started
round_tick r = ground (arith, tick_frame (ensure_started r))

-- That many rounds one after the other.
abbrev pub rounds : ℕ → Room → Room
rounds zero r = r
rounds (suc k) r = rounds k (tick (ensure_started r))

abbrev pub OpenBefore : ℕ → Room → Type 0
OpenBefore k r = (j : ℕ) → j < k → (rounds j r).state ≢ RoomState.closed

open_first :
    (k : ℕ) (r : Room)
    → r.state ≢ RoomState.closed
    → OpenBefore k (tick (ensure_started r))
    → OpenBefore (suc k) r
open_first k r first later zero h = first
open_first k r first later (suc j) h = later j (omega arith)

-- The loop is a number of rounds, all of them from a room that is not closed.
advance_rounds-rounds :
    (fuel : ℕ) (target : ℤ) (r : Room)
    → (k : ℕ) × (advance_rounds fuel target r ≡ rounds k r) × OpenBefore k r
unfolding advance_rounds
advance_rounds-rounds zero target r = (0, refl, λ j h. absurd (omega arith))
advance_rounds-rounds (suc fuel) target r =
    elim (Bool-cases (ltb_ℤ r.server_tick target && not (is_closed r.state))) [
      | inr stop ↦ (0, rw (stop, advance_rounds) refl, λ j h. absurd (omega arith))
      | inl go ↦
          let (k, same, later) = advance_rounds-rounds fuel target (tick (ensure_started r)) in
          (suc k, rw (go, advance_rounds) same, open_first k r (λ e. ground arith) later)
    ]

advance_rounds_stops :
    (fuel : ℕ) (target : ℤ) (r : Room)
    → Is64 target
    → Is64 r.server_tick
    → pos_part target + neg_part r.server_tick ≤ pos_part r.server_tick + neg_part target + fuel
    → r.server_tick ≤ℤ target
    → let s = advance_rounds fuel target r in
      (s.server_tick ≡ target) ⊎ ((s.state ≡ RoomState.closed) × (s.server_tick ≤ℤ target))
unfolding advance_rounds
advance_rounds_stops zero target r t64 s64 enough le = inl (omega go_laws)
advance_rounds_stops (suc fuel) target r t64 s64 enough le =
    elim (Bool-cases (ltb_ℤ r.server_tick target && not (is_closed r.state))) [
      | inr stop ↦
          rw (stop, advance_rounds)
            (elim (Bool-cases (ltb_ℤ r.server_tick target)) [
              | inl more ↦ inr (ground arith, le)
              | inr done ↦ let over : target ≤ℤ r.server_tick = ground arith in inl (omega go_laws)
            ])
      | inl go ↦
          let below : r.server_tick <ℤ target = ground arith in
          rw (go, advance_rounds)
            (advance_rounds_stops fuel target (tick (ensure_started r)) t64
              (rw (round_tick r) (omega go_laws)) (rw (round_tick r) (omega go_laws))
              (rw (round_tick r) (omega go_laws)))
    ]

-- Asked to advance to a tick that is not behind, the room makes some number of rounds, each from a room that
-- is not closed, and then either is exactly at that tick, or has closed, at a tick not beyond it: it stays as
-- it is at the first round that closes it. The fuel that the model gives to the loop is enough.
pub advance_to_tick_stops :
    (target : ℤ) (r : Room)
    → Is64 target
    → Is64 r.server_tick
    → r.server_tick ≤ℤ target
    → let s = advance_to_tick target r in
      ((s.server_tick ≡ target) ⊎ ((s.state ≡ RoomState.closed) × (s.server_tick ≤ℤ target)))
      × (k : ℕ) × (s ≡ rounds k r)
      × ((j : ℕ) → j < k → (rounds j r).state ≢ RoomState.closed)
unfolding advance_to_tick
advance_to_tick_stops target r t64 s64 le =
    let fuel = pos_part (target -ℤ r.server_tick) in
    let (k, same, later) = advance_rounds-rounds fuel target r in
    (advance_rounds_stops fuel target r t64 s64 (omega go_laws) le, k, same, later)

-- A closed room does not move at all, whatever tick is asked for.
pub advance_to_tick_closed :
    (target : ℤ) (r : Room) → r.state ≡ RoomState.closed → advance_to_tick target r ≡ r
unfolding advance_to_tick
advance_to_tick_closed target r h = closed_rounds (pos_part (target -ℤ r.server_tick))
  where
    closed_rounds : (fuel : ℕ) → advance_rounds fuel target r ≡ r
    closed_rounds zero = unfold advance_rounds in refl
    closed_rounds (suc fuel) = unfold advance_rounds in ground arith
