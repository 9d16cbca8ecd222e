-- ===== src/Battle/Server/Settled.antt =====
-- src/service/battle/battleapp: a battle is settled at most once, and its report is final.
use heli.Common.{ℤ, Bool, true, String, ◌≡◌, refl, ◌∙◌, inl, inr, arith, int_eq, string_eq}
use heli.Battle.Types.{Room, RoomState}
use heli.Battle.Room.{mark_settled}
use heli.Battle.Commands.Keep.{Command, run_command}
use heli.Battle.Tick.{advance_to_tick}
use heli.Battle.View.{flush_deltas}
use heli.Battle.Life.{
  Event, commands, advances, flushes, settles, step, step_closed, step_settled, SameOutcome,
}
use heli.Battle.Server.State.{BattleRoom, BattleOp, Try, Try-cases, given, denied}
use heli.Battle.Server.Ops.{apply_battle_op, broadcast_room_delta, route}
use heli.Battle.Server.Loop.{advance_loop_tick, settle_answer, mark_settle_ack, stop_room_loop}

-- What any call keeps of a room: that it is settled, and the outcome of a closed one.
pub record Evolves (r s : Room) : Type 0 where
  pub keeps_settled : r.settled ≡ true → s.settled ≡ true
  pub keeps_outcome : r.state ≡ RoomState.closed → SameOutcome r s

pub Evolves-refl : (r : Room) → Evolves r r
Evolves-refl r = record {
  keeps_settled = λ h. h;
  keeps_outcome =
      λ h. record { state = refl; reason = refl; ended = refl; now = refl; base = refl };
}

pub Evolves-trans : (r s t : Room) → Evolves r s → Evolves s t → Evolves r t
Evolves-trans r s t f g = record {
  keeps_settled = λ h. g.keeps_settled (f.keeps_settled h);
  keeps_outcome = λ h.
      let one = f.keeps_outcome h in
      let rest = g.keeps_outcome (one.state ∙ h) in
      record {
        state = rest.state ∙ one.state;
        reason = rest.reason ∙ one.reason;
        ended = rest.ended ∙ one.ended;
        now = rest.now ∙ one.now;
        base = rest.base ∙ one.base;
      };
}

Evolves-step : (e : Event) (r : Room) → Evolves r (step e r)
Evolves-step e r = record { keeps_settled = step_settled e r; keeps_outcome = step_closed e r }

Evolves-command : (c : Command) (r : Room) → Evolves r (run_command c r).0
Evolves-command c r = unfold step in (Evolves-step (commands c) r)

Evolves-flush : (r : Room) → Evolves r (flush_deltas r).0
Evolves-flush r = unfold step in (Evolves-step flushes r)

Evolves-advance : (target : ℤ) (r : Room) → Evolves r (advance_to_tick target r)
Evolves-advance target r = unfold step in (Evolves-step (advances target) r)

pub Evolves-settle : (r : Room) → Evolves r (mark_settled r).0
Evolves-settle r = unfold step in (Evolves-step settles r)

-- The pieces of a handler that change the room of a `BattleRoom`.
pub record Follows (b c : BattleRoom) : Type 0 where
  pub same_id : c.id ≡ b.id
  pub evolves : Evolves b.room c.room

pub Follows-refl : (b : BattleRoom) → Follows b b
Follows-refl b = record { same_id = refl; evolves = Evolves-refl b.room }

pub Follows-trans : (b c d : BattleRoom) → Follows b c → Follows c d → Follows b d
Follows-trans b c d f g = record {
  same_id = g.same_id ∙ f.same_id;
  evolves = Evolves-trans b.room c.room d.room f.evolves g.evolves;
}

pub broadcast-Follows : (b : BattleRoom) → Follows b (broadcast_room_delta b).0
unfolding broadcast_room_delta
broadcast-Follows b = let kept = Evolves-flush b.room in ground arith

pub apply-Follows :
    (b : BattleRoom) (player_id : ℤ) (op_id : String) (op : BattleOp)
    → Follows b (apply_battle_op b player_id op_id op).0
unfolding apply_battle_op
apply-Follows b player_id op_id op = elim (Try-cases (route player_id op_id op)) [
  | inl (message, e) ↦ let same = Follows-refl b in ground arith
  | inr (c, e) ↦ let same = Follows-refl b in let kept = Evolves-command c b.room in ground arith
]

pub advance-Follows : (b : BattleRoom) → Follows b (advance_loop_tick b)
unfolding advance_loop_tick
advance-Follows b = record { same_id = refl; evolves = Evolves-advance _ b.room }

pub answer-Follows :
    (answer : Try (Bool × String)) (b : BattleRoom)
    → Follows b (stop_room_loop (settle_answer answer b))
unfolding settle_answer mark_settle_ack
answer-Follows (given (accepted, message)) b = record {
  same_id = refl;
  evolves = Evolves-refl b.room;
}
answer-Follows (denied err) b = record { same_id = refl; evolves = Evolves-refl b.room }
