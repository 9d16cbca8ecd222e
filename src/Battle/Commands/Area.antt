-- ===== src/Battle/Commands/Area.antt =====
-- The build area of `canBuildOn` in src/service/battle/sync/room.go, said without the code.
use heli.Common.{
  ℤ, eqb_ℤ, eqb_ℤ_iff, true, List, [], ◌∷◌, some, ◌≡◌, ◌⊎◌, refl, sym, inl, inr, arith, int_eq,
  Bool-cases, Option-cases,
}
use mathlib.Core.List.{Memᴰ}
use mathlib.Core.List.Memᴰ.{head, tail}
use heli.Common.Table.{find}
use heli.Battle.Types.{Room}
use heli.Battle.Room.{contains, can_build_on, is_empty}

-- The player's build area: all cells where the configuration assigns none to any player, and otherwise the
-- cells that it assigns to the player.
abbrev pub InArea : ℤ → ℤ → Room → Type 0
InArea player_id grid_id r =
    (r.cfg.build_grids_by_player ≡ [])
    ⊎ ((grids : List ℤ) × (find player_id r.cfg.build_grids_by_player ≡ some grids)
        × Memᴰ grid_id grids)

Memᴰ-contains : (x : ℤ) (ys : List ℤ) → Memᴰ x ys → contains x ys ≡ true
unfolding contains
Memᴰ-contains x [] m = elim m [ ]
Memᴰ-contains x (y ∷ ys) (head e) =
    let same : eqb_ℤ y x ≡ true = (eqb_ℤ_iff y x).1 (sym e) in rw same refl
Memᴰ-contains x (y ∷ ys) (tail m) = ground (arith, Memᴰ-contains x ys m)

contains-Memᴰ : (x : ℤ) (ys : List ℤ) → contains x ys ≡ true → Memᴰ x ys
unfolding contains
contains-Memᴰ x [] h = absurd (ground arith)
contains-Memᴰ x (y ∷ ys) h = elim (Bool-cases (eqb_ℤ y x)) [
  | inl same ↦ head (sym ((eqb_ℤ_iff y x).0 same))
  | inr other ↦ tail (contains-Memᴰ x ys (ground arith))
]

pub InArea-can_build_on :
    (player_id grid_id : ℤ) (r : Room)
    → InArea player_id grid_id r
    → can_build_on player_id grid_id r ≡ true
unfolding can_build_on find
InArea-can_build_on player_id grid_id r (inl free) = rw free refl
InArea-can_build_on player_id grid_id r (inr (grids, assigned, m)) =
    ground (arith, Memᴰ-contains grid_id grids m)

pub can_build_on-InArea :
    (player_id grid_id : ℤ) (r : Room)
    → can_build_on player_id grid_id r ≡ true
    → InArea player_id grid_id r
unfolding can_build_on contains
can_build_on-InArea player_id grid_id r h =
    elim (Bool-cases (is_empty r.cfg.build_grids_by_player)) [
      | inl free ↦ inl (ground arith)
      | inr some_assigned ↦ elim (Option-cases (find player_id r.cfg.build_grids_by_player)) [
        | inl unassigned ↦ absurd (ground arith)
        | inr (grids, assigned) ↦ inr (grids, assigned, contains-Memᴰ grid_id grids (ground arith))
      ]
    ]
