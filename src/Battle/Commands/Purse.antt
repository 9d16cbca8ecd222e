-- ===== src/Battle/Commands/Purse.antt =====
-- What the player operations of src/service/battle/sync/room.go cost, and who pays.
use heli.Common.{
  ℤ, pos, ◌≤ℤ◌, ◌+ℤ◌, Is64, sub64, some, true, ◌≡◌, ◌≢◌, inl, inr, arith, int_eq, go_laws,
}
use heli.Common.Table.{Table, find, find-insert_self, find-insert_ne}
use heli.Battle.Types.{Room, RoomConfig, PlayerState, OpResult}
use heli.Battle.Commands.Accepts.{
  build_tower_cases, reroll_tower_cases, merge_tower_cases, buy_miner_cases, drawn_room,
}
use heli.Battle.Commands.Effects.{
  place_tower_frame, retype_tower_frame, fuse_towers_frame, add_miner_frame,
}
use heli.Battle.Commands.Keep.{Command, build, reroll, merge, buy, run_command}

abbrev pub actor : Command → ℤ
actor (build player_id op_id grid_id) = player_id
actor (reroll player_id op_id tower_id) = player_id
actor (merge player_id op_id main_id material_id) = player_id
actor (buy player_id op_id) = player_id

abbrev pub gold_price : Command → RoomConfig → ℤ
gold_price (build player_id op_id grid_id) cfg = cfg.build_cost_gold
gold_price (reroll player_id op_id tower_id) cfg = pos 0
gold_price (merge player_id op_id main_id material_id) cfg = pos 0
gold_price (buy player_id op_id) cfg = cfg.miner_cost_gold

abbrev pub mana_price : Command → RoomConfig → ℤ
mana_price (build player_id op_id grid_id) cfg = pos 0
mana_price (reroll player_id op_id tower_id) cfg = cfg.reroll_cost_mana
mana_price (merge player_id op_id main_id material_id) cfg = pos 0
mana_price (buy player_id op_id) cfg = pos 0

-- No price is negative.
pub record PricesFair (cfg : RoomConfig) : Type 0 where
  pub build_fair : pos 0 ≤ℤ cfg.build_cost_gold
  pub reroll_fair : pos 0 ≤ℤ cfg.reroll_cost_mana
  pub miner_fair : pos 0 ≤ℤ cfg.miner_cost_gold

-- A purse holds int64 values, and its gold is not negative.
pub record PurseOk (p : PlayerState) : Type 0 where
  pub gold_nonneg : pos 0 ≤ℤ p.gold
  pub gold_int64 : Is64 p.gold
  pub mana_int64 : Is64 p.mana

abbrev pub PursesOk : Table ℤ PlayerState → Type 0
PursesOk players = (id : ℤ) (p : PlayerState) → find id players ≡ some p → PurseOk p

-- The purse `q` is what the price leaves of the purse `p`.
abbrev pub Pays : Command → RoomConfig → PlayerState → PlayerState → Type 0
Pays c cfg p q = (q.gold +ℤ gold_price c cfg ≡ p.gold) × (q.mana +ℤ mana_price c cfg ≡ p.mana)

abbrev pub Charged : Command → Room → Room × OpResult → Type 0
Charged c r s =
    (p : PlayerState) × (q : PlayerState) × (find (actor c) r.players ≡ some p)
    × (find (actor c) s.0.players ≡ some q)
    × Pays c r.cfg p q
    × PurseOk q

-- A granted operation takes exactly its price from the gold and the mana of the player that asked
-- for it, and what is left is an int64 and, of gold, not negative. No price may be negative, and
-- every purse of the room must be sound before.
pub run_command-Charged :
    (c : Command) (r : Room)
    → PricesFair r.cfg
    → PursesOk r.players
    → (run_command c r).1.is_ok ≡ true
    → Charged c r (run_command c r)
unfolding run_command
run_command-Charged (build player_id op_id grid_id) r fair v granted =
    elim (build_tower_cases player_id op_id grid_id r) [
      | inr (same, refused) ↦ absurd (ground arith)
      | inl (p, type_id, can, e) ↦
          let o = v player_id p can.known in
          let cover = can.affordable in
          rw (e, place_tower_frame player_id op_id grid_id type_id p (drawn_room r))
            (
              p,
              record p { gold = sub64 p.gold r.cfg.build_cost_gold },
              can.known,
              find-insert_self player_id _ r.players,
              (omega go_laws, omega go_laws),
              omega go_laws,
            )
    ]
run_command-Charged (reroll player_id op_id tower_id) r fair v granted =
    elim (reroll_tower_cases player_id op_id tower_id r) [
      | inr (same, refused) ↦ absurd (ground arith)
      | inl (p, t, type_id, can, e) ↦
          let o = v player_id p can.known in
          let cover = can.affordable in
          rw (e, retype_tower_frame player_id op_id tower_id type_id p t (drawn_room r))
            (
              p,
              record p { mana = sub64 p.mana r.cfg.reroll_cost_mana },
              can.known,
              find-insert_self player_id _ r.players,
              (omega go_laws, omega go_laws),
              omega go_laws,
            )
    ]
run_command-Charged (merge player_id op_id main_id material_id) r fair v granted =
    elim (merge_tower_cases player_id op_id main_id material_id r) [
      | inr (same, refused) ↦ absurd (ground arith)
      | inl (p, m, t, type_id, can, e) ↦
          let o = v player_id p can.known in
          rw (e, fuse_towers_frame player_id op_id main_id material_id type_id m t (drawn_room r))
            (p, p, can.known, can.known, (omega go_laws, omega go_laws), o)
    ]
run_command-Charged (buy player_id op_id) r fair v granted =
    elim (buy_miner_cases player_id op_id r) [
      | inr (same, refused) ↦ absurd (ground arith)
      | inl (p, known, cover, e) ↦
          let o = v player_id p known in
          rw (e, add_miner_frame player_id op_id p r)
            (
              p,
              _,
              known,
              find-insert_self player_id _ r.players,
              (omega go_laws, omega go_laws),
              omega go_laws,
            )
    ]

-- A player operation, granted or refused, leaves what every other player of the room has as it was.
pub run_command_others :
    (c : Command) (r : Room) (id : ℤ)
    → actor c ≢ id
    → find id (run_command c r).0.players ≡ find id r.players
unfolding run_command
run_command_others (build player_id op_id grid_id) r id other =
    elim (build_tower_cases player_id op_id grid_id r) [
      | inr (same, refused) ↦ rw same
      | inl (p, type_id, can, e) ↦
          rw (e, place_tower_frame player_id op_id grid_id type_id p (drawn_room r))
            (find-insert_ne player_id id _ r.players other)
    ]
run_command_others (reroll player_id op_id tower_id) r id other =
    elim (reroll_tower_cases player_id op_id tower_id r) [
      | inr (same, refused) ↦ rw same
      | inl (p, t, type_id, can, e) ↦
          rw (e, retype_tower_frame player_id op_id tower_id type_id p t (drawn_room r))
            (find-insert_ne player_id id _ r.players other)
    ]
run_command_others (merge player_id op_id main_id material_id) r id other =
    elim (merge_tower_cases player_id op_id main_id material_id r) [
      | inr (same, refused) ↦ rw same
      | inl (p, m, t, type_id, can, e) ↦
          rw (e, fuse_towers_frame player_id op_id main_id material_id type_id m t (drawn_room r))
    ]
run_command_others (buy player_id op_id) r id other = elim (buy_miner_cases player_id op_id r) [
  | inr (same, refused) ↦ rw same
  | inl (p, known, cover, e) ↦
      rw (e, add_miner_frame player_id op_id p r) (find-insert_ne player_id id _ r.players other)
]
