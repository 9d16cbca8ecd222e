-- ===== src/Battle/Server/Moves.antt =====
-- src/service/battle/battleapp: the rooms of a server before and after a step, and what is reported
-- of them.
use text.Mathlib.Text.{◌==◌ as str_eq}
use text.Mathlib.TextEquality.{eq_iff}
use heli.Common.{
  ℕ, suc, ◌≤◌, true, String, List, [], ◌∷◌, none, some, ◌≡◌, sym, ◌∙◌, ap, inl, inr, arith, int_eq,
  string_eq, Bool-cases, if◌then◌else◌,
}
use heli.Common.Table.{Table, find, insert, find-insert_self, find-insert_ne, find-insert_inv}
use heli.Battle.Types.{RoomState, Settlement}
use heli.Battle.Server.State.{BattleRoom, BattleSvr}
use heli.Battle.Server.Loop.{is_in}
use heli.Battle.Server.Settled.{Follows, Follows-refl, Follows-trans}
use heli.Common.{All, All-mono}

-- The rooms of the server, each under its own id.
abbrev pub Named : Table String BattleRoom → Type 0
Named rooms = (k : String) (b : BattleRoom) → find k rooms ≡ some b → b.id ≡ k

-- Every room is still there, and has followed on.
pub record Moves (rooms rooms' : Table String BattleRoom) : Type 0 where
  pub follow :
      (k : String) (b : BattleRoom)
      → find k rooms ≡ some b
      → (c : BattleRoom) × (find k rooms' ≡ some c) × Follows b c
  pub names : Named rooms → Named rooms'

pub Moves-refl : (rooms : Table String BattleRoom) → Moves rooms rooms
Moves-refl rooms = record { follow = λ k b h. (b, h, Follows-refl b); names = λ n. n }

pub Moves-trans : (r s t : Table String BattleRoom) → Moves r s → Moves s t → Moves r t
Moves-trans r s t f g = record {
  follow = λ k b h.
      let (c, found, fc) = f.follow k b h in
      let (d, found', fd) = g.follow k c found in (d, found', Follows-trans b c d fc fd);
  names = λ n. g.names (f.names n);
}

-- A room that is put back where it was found.
pub Moves-put :
    (k : String) (b c : BattleRoom) (rooms : Table String BattleRoom)
    → find k rooms ≡ some b
    → Follows b c
    → Moves rooms (insert k c rooms)
Moves-put k b c rooms h f = record {
  follow = λ j d found. elim (Bool-cases (str_eq k j)) [
    | inl same ↦
        let e : k ≡ j = (eq_iff k j).0 same in
        let d_eq : d ≡ b = ground arith in (c, rw (sym e) (find-insert_self k c rooms), rw d_eq f)
    | inr other ↦ (
      d,
      find-insert_ne k j c rooms (λ e. ground (arith, (eq_iff k j).1 e)) ∙ found,
      Follows-refl d,
    )
  ];
  names = λ n j d found. elim (find-insert_inv k j c d rooms found) [
    | inl (same, new) ↦ let id_b = n k b h in let moved = f.same_id in ground arith
    | inr (other, old) ↦ n j d old
  ];
}

-- A room that is new.
pub Moves-new :
    (k : String) (c : BattleRoom) (rooms : Table String BattleRoom)
    → find k rooms ≡ none
    → c.id ≡ k
    → Moves rooms (insert k c rooms)
Moves-new k c rooms h named = record {
  follow = λ j d found. (d, find-insert_ne k j c rooms (λ e. ground arith) ∙ found, Follows-refl d);
  names = λ n j d found. elim (find-insert_inv k j c d rooms found) [
    | inl (same, new) ↦ ground arith
    | inr (other, old) ↦ n j d old
  ];
}

-- The report is of a room that is closed and settled, and says how and when it ended.
abbrev pub Final : Table String BattleRoom → Settlement → Type 0
Final rooms rep =
    (b : BattleRoom) × (find rep.room_id rooms ≡ some b)
    × (b.room.state ≡ RoomState.closed)
    × (b.room.settled ≡ true)
    × (rep.finish_reason ≡ b.room.finish_reason)
    × (rep.end_tick ≡ b.room.end_tick)

abbrev pub Closing : Table String BattleRoom → String → Type 0
Closing rooms k = (b : BattleRoom) × (find k rooms ≡ some b) × (b.room.state ≡ RoomState.closed)

pub Final-Moves :
    (rooms rooms' : Table String BattleRoom)
    → Moves rooms rooms'
    → (rep : Settlement) → Final rooms rep
    → Final rooms' rep
Final-Moves rooms rooms' m rep (b, found, closed, settled, reason, ended) =
    let (c, found', f) = m.follow rep.room_id b found in
    let kept = f.evolves.keeps_outcome closed in
    (
      c,
      found',
      kept.state ∙ closed,
      f.evolves.keeps_settled settled,
      reason ∙ sym kept.reason,
      ended ∙ sym kept.ended,
    )

pub Closing-Moves :
    (rooms rooms' : Table String BattleRoom)
    → Moves rooms rooms'
    → (k : String) → Closing rooms k
    → Closing rooms' k
Closing-Moves rooms rooms' m k (b, found, closed) =
    let (c, found', f) = m.follow k b found in
    (c, found', (f.evolves.keeps_outcome closed).state ∙ closed)

-- The reports of a room.
abbrev pub reports_of : String → List Settlement → ℕ
reports_of k [] = 0
reports_of k (rep ∷ rest) =
    if str_eq rep.room_id k then suc (reports_of k rest) else reports_of k rest

pub record Sound (s : BattleSvr) : Type 0 where
  pub named : Named s.rooms
  pub closing : (k : String) → is_in k s.settling ≡ true → Closing s.rooms k
  pub final : All (Final s.rooms) s.reports
  pub once : (k : String) → reports_of k s.reports ≤ 1

-- A step that reports nothing.
pub Sound-quiet :
    (s t : BattleSvr)
    → Sound s
    → Moves s.rooms t.rooms
    → t.reports ≡ s.reports
    → ((k : String) → is_in k t.settling ≡ true → Closing t.rooms k)
    → Sound t
Sound-quiet s t v m same closing = record {
  named = m.names v.named;
  closing = closing;
  final =
      rw same (
        All-mono (Final s.rooms) (Final t.rooms) s.reports (Final-Moves s.rooms t.rooms m) v.final);
  once = λ k. rw same (v.once k);
}

-- Nor starts a settlement.
pub Sound-still :
    (s t : BattleSvr)
    → Sound s
    → Moves s.rooms t.rooms
    → t.reports ≡ s.reports
    → t.settling ≡ s.settling
    → Sound t
Sound-still s t v m same same' =
    Sound-quiet s t v m same
      (λ k h. Closing-Moves s.rooms t.rooms m k (v.closing k (sym (ap (is_in k) same') ∙ h)))
