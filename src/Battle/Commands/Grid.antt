-- ===== src/Battle/Commands/Grid.antt =====
-- The towers of src/service/battle/sync/room.go and the grid that they stand on: `towers` and
-- `gridTower` always agree.
use heli.Common.{
  ℤ, pos, pos_part, neg_part, ap, ◌≤ℤ◌, ◌<ℤ◌, Is32, eqb_ℤ_iff, eqb_ℤ, none, some, ◌≡◌, ◌≢◌, inl,
  inr, arith, int_eq, Bool-cases,
}
use heli.Common.Table.{
  Table, find, insert, erase, find-insert, find-insert_inv, find-erase_inv, find-insert_self,
  find-insert_ne, find-erase_ne,
}
use heli.Battle.Types.{Room, TowerState}

-- What holds of a tower under its id.
pub record Stands (grid : Table ℤ ℤ) (next max_level id : ℤ) (t : TowerState) : Type 0 where
  pub named : t.tower_id ≡ id
  pub on_grid : find t.grid_id grid ≡ some id
  pub level_pos : pos 1 ≤ℤ t.level
  pub level_max : t.level ≤ℤ max_level
  pub old : id <ℤ next

-- Every tower stands on the cell that the grid gives to it, and every taken cell has its tower.
pub record Agrees (towers : Table ℤ TowerState) (grid : Table ℤ ℤ) (next max_level : ℤ)
    : Type 0 where
  pub stands : (id : ℤ) (t : TowerState) → find id towers ≡ some t → Stands grid next max_level id t
  pub occupied :
      (g id : ℤ)
      → find g grid ≡ some id
      → (t : TowerState) × (find id towers ≡ some t) × (t.grid_id ≡ g)

module _ (towers : Table ℤ TowerState) (grid : Table ℤ ℤ) (next max_level : ℤ)
    (v : Agrees towers grid next max_level) where
  -- The id that the next build takes is not in use.
  fresh_id : (id : ℤ) (t : TowerState) → find id towers ≡ some t → next ≢ id
  fresh_id id t h e = absurd (omega (arith, (v.stands id t h).old, ap pos_part e, ap neg_part e))

  module _ (g : ℤ) (t : TowerState) (named : t.tower_id ≡ next) (at : t.grid_id ≡ g)
      (low : pos 1 ≤ℤ t.level) (high : t.level ≤ℤ max_level) (vacant : find g grid ≡ none)
      (next' : ℤ) (step : next <ℤ next') where
    Stands-build :
        (id : ℤ) (u : TowerState)
        → find id (insert next t towers) ≡ some u
        → Stands (insert g next grid) next' max_level id u
    Stands-build id u h = elim (find-insert_inv next id t u towers h) [
      | inl (same, new) ↦ ground (arith, find-insert_self g next grid)
      | inr (other, old) ↦
          let s = v.stands id u old in
          let apart : g ≢ u.grid_id = λ e. ground (arith, s.on_grid) in
          ground (arith, s, find-insert_ne g u.grid_id next grid apart)
    ]

    pub Agrees-build : Agrees (insert next t towers) (insert g next grid) next' max_level
    Agrees-build = record {
      stands = Stands-build;
      occupied = λ c id h. elim (find-insert_inv g c next id grid h) [
        | inl (same, new) ↦ (t, ground (arith, find-insert_self next t towers), ground arith)
        | inr (other, old) ↦
            let (u, found, here) = v.occupied c id old in
            (u, ground (arith, find-insert_ne next id t towers (fresh_id id u found)), here)
      ];
    }

  -- A tower changed in place, on its own cell.
  module _ (id : ℤ) (m t : TowerState) (found : find id towers ≡ some m)
      (named : t.tower_id ≡ m.tower_id) (at : t.grid_id ≡ m.grid_id) (low : pos 1 ≤ℤ t.level)
      (high : t.level ≤ℤ max_level) where
    pub Agrees-update : Agrees (insert id t towers) grid next max_level
    Agrees-update = record {
      stands = λ j u h. elim (find-insert_inv id j t u towers h) [
        | inl (same, new) ↦ ground (arith, v.stands id m found)
        | inr (other, old) ↦ v.stands j u old
      ];
      occupied = λ c j h.
          let (u, taken, here) = v.occupied c j h in
          elim (Bool-cases (eqb_ℤ id j)) [
            | inl same ↦ (
              t,
              ground (arith, eqb_ℤ_iff id j, find-insert_self id t towers),
              ground (arith, eqb_ℤ_iff id j),
            )
            | inr other ↦ (u, ground (arith, find-insert id j t towers), here)
          ];
    }

  -- A tower taken off the grid.
  pub Agrees-erase :
      (id : ℤ) (t : TowerState)
      → find id towers ≡ some t
      → Agrees (erase id towers) (erase t.grid_id grid) next max_level
  Agrees-erase id t found = record {
    stands = λ j u h.
        let old = find-erase_inv id j u towers h in
        let s = v.stands j u old.1 in
        let apart : t.grid_id ≢ u.grid_id = λ e. old.0 (ground (arith, v.stands id t found, s)) in
        ground (arith, s, find-erase_ne t.grid_id u.grid_id grid apart);
    occupied = λ c j h.
        let old = find-erase_inv t.grid_id c j grid h in
        let (u, taken, here) = v.occupied c j old.1 in
        let apart : id ≢ j = λ e. old.0 (ground arith) in
        (u, ground (arith, find-erase_ne id j towers apart), here);
  }

-- Towers and grid agree, and the level limit is an int32 of at least one.
pub record GridAgrees (r : Room) : Type 0 where
  pub agrees : Agrees r.towers r.grid_tower r.next_tower_id r.cfg.tower_max_level
  pub limit_pos : pos 1 ≤ℤ r.cfg.tower_max_level
  pub limit_int32 : Is32 r.cfg.tower_max_level

-- Two rooms with the same towers, grid, counter and configuration.
pub GridAgrees-of_eq :
    (r s : Room)
    → s.towers ≡ r.towers
    → s.grid_tower ≡ r.grid_tower
    → s.next_tower_id ≡ r.next_tower_id
    → s.cfg ≡ r.cfg
    → GridAgrees r
    → GridAgrees s
GridAgrees-of_eq r s a b c d v =
    rw (a, b, c, d)
      (record { agrees = v.agrees; limit_pos = v.limit_pos; limit_int32 = v.limit_int32 })
